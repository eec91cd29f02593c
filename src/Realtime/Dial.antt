-- ===== src/Realtime/Dial.antt =====
-- The configuration, and how `TranslateStream` connects.
use talk_go.Prelude.{Text, [], nat_eq, text_eq, txt, ◌++◌, ◌∷◌}
use talk_go.OpenAi.{or_default}

-- `OpenAIRealtimeConfig`
pub record Config : Type 0 where
  pub api_key : Text
  pub model : Text
  pub base_url : Text

unfoldable pub apply_defaults : Config → Config
apply_defaults c = record c {
  model = or_default c.model (txt "gpt-realtime");
  base_url = or_default c.base_url (txt "wss://api.openai.com/v1/realtime");
}

-- " — ", in UTF-8.
abbrev dash : Text
dash = 32 ∷ 226 ∷ 128 ∷ 148 ∷ 32 ∷ []

unfoldable pub instructions : Text → Text → Text
instructions source_lang target_lang =
    txt "You are a simultaneous interpreter. INPUT language: "
    ++ source_lang
    ++ txt ". OUTPUT language: "
    ++ target_lang
    ++ txt ". RULES: (1) Translate ONLY what you hear"
    ++ dash
    ++ txt "word for word, meaning for meaning. (2) Output ONLY in "
    ++ target_lang
    ++ txt ". NEVER speak "
    ++ source_lang
    ++ txt ". NEVER add greetings, comments, or acknowledgements. "
    ++ txt "(3) If you hear silence or noise with no speech, output nothing. "
    ++ txt "(4) Do NOT act as an assistant. Do NOT answer questions. ONLY translate."

-- `fmt.Sprintf("%s?model=%s", …)`
unfoldable pub url : Config → Text
url c = c.base_url ++ txt "?model=" ++ c.model
