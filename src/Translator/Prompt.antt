-- ===== src/Translator/Prompt.antt =====
-- `isPromptEcho` of internal/adapters/translator/pipeline_translator.go and `sttPromptForLang` of
-- internal/adapters/translator/openai_whisper_stt.go.
use talk_go.Prelude.{
  Bool, Text, [], if◌then◌else◌, leb, nat_eq, not, text_eq, txt, ℕ, ◌&&◌, ◌++◌, ◌==◌, ◌||◌, ◌∷◌,
}
use talk_go.Repository.{to_upper}

-- The map of prompts, with the runes beyond ASCII by their code points.
unfoldable pub stt_prompt_for_lang : Text → Text
stt_prompt_for_lang lang =
    if lang == txt "es"
    then txt "Conversaci" ++ 243 ∷ txt "n en espa" ++ 241 ∷ txt "ol."
    else if lang == txt "en"
    then txt "Conversation in English."
    else if lang == txt "fr"
    then txt "Conversation en fran" ++ 231 ∷ txt "ais."
    else if lang == txt "pt"
    then txt "Conversa em portugu" ++ 234 ∷ txt "s."
    else if lang == txt "de"
    then txt "Gespr" ++ 228 ∷ txt "ch auf Deutsch."
    else if lang == txt "it"
    then txt "Conversazione in italiano."
    else if lang == txt "zh"
    then 20013 ∷ 25991 ∷ 23545 ∷ 35805 ∷ 12290 ∷ []
    else if lang == txt "ja"
    then 26085 ∷ 26412 ∷ 35486 ∷ 12398 ∷ 20250 ∷ 35441 ∷ 12290 ∷ []
    else if lang == txt "ko"
    then 54620 ∷ 44397 ∷ 50612 ∷ 32 ∷ 45824 ∷ 54868 ∷ 46 ∷ []
    else if lang == txt "ar"
    then arabic
    else if lang == txt "ru"
    then russian
    else []
  where
    arabic : Text
    arabic =
        1605 ∷ 1581 ∷ 1575 ∷ 1583 ∷ 1579 ∷ 1577 ∷ 32 ∷ 1576 ∷ 1575 ∷ 1604 ∷ 1604 ∷ 1594 ∷ 1577 ∷ 32
        ∷ 1575 ∷ 1604 ∷ 1593 ∷ 1585 ∷ 1576 ∷ 1610 ∷ 1577 ∷ 46 ∷ []

    russian : Text
    russian =
        1056 ∷ 1072 ∷ 1079 ∷ 1075 ∷ 1086 ∷ 1074 ∷ 1086 ∷ 1088 ∷ 32 ∷ 1085 ∷ 1072 ∷ 32 ∷ 1088 ∷ 1091
        ∷ 1089 ∷ 1089 ∷ 1082 ∷ 1086 ∷ 1084 ∷ 32 ∷ 1103 ∷ 1079 ∷ 1099 ∷ 1082 ∷ 1077 ∷ 46 ∷ []

-- `unicode.IsSpace`
unfoldable pub is_space : ℕ → Bool
is_space c =
    (leb 9 c && leb c 13)
    || c == 32
    || c == 133
    || c == 160
    || c == 5760
    || (leb 8192 c && leb c 8202)
    || c == 8232
    || c == 8233
    || c == 8239
    || c == 8287
    || c == 12288

unfoldable pub trim_left : Text → Text
trim_left [] = []
trim_left (c ∷ s) = let rest = trim_left s in if is_space c then rest else c ∷ s

-- A text with its spaces at the end left off.
unfoldable pub trim_right : Text → Text
trim_right [] = []
trim_right (c ∷ s) = let rest = trim_right s in if rest == [] && is_space c then [] else c ∷ rest

-- `strings.TrimSpace`
abbrev pub trim_space : Text → Text
trim_space s = trim_right (trim_left s)

unfoldable pub is_prompt_echo : Text → Text → Bool
is_prompt_echo text lang =
    let prompt = stt_prompt_for_lang lang in
    not (prompt == []) && trim_space text == trim_space prompt

-- `strings.EqualFold` on the letters of ASCII, of which the codes of languages consist.
abbrev pub equal_fold : Text → Text → Bool
equal_fold s t = to_upper s == to_upper t
