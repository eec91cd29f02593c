-- ===== src/OpenAi.antt =====
-- The clients of OpenAI's services: internal/adapters/translator/openai_translate.go (chat),
-- internal/adapters/tts/openai_tts.go (speech), and openai_whisper_stt.go (Stt). What a service
-- answers is an argument; a body that is not the JSON expected is `none`. The context is not
-- cancelled.
pub mod Stt
pub mod Chunked
use talk_go.Prelude.{
  List, Option, Text, [], if◌then◌else◌, inl, inr, nat_eq, none, not, some, text_eq, txt, ℕ, ◌++◌,
  ◌==◌, ◌∷◌, ◌⊎◌,
}

pub data ApiError : Type 0 where
  -- `client.Do` has failed.
  http_error : Text → ApiError
  api_error : ℕ → Text → ApiError
  undecodable empty_response : ApiError

abbrev pub or_default : Text → Text → Text
or_default v default = if v == [] then default else v

-- `TextTranslatorConfig`
pub record ChatConfig : Type 0 where
  pub api_key : Text
  pub model : Text
  pub base_url : Text

unfoldable pub chat_defaults : ChatConfig → ChatConfig
chat_defaults c = record c {
  model = or_default c.model (txt "gpt-4o-mini");
  base_url = or_default c.base_url (txt "https://api.openai.com/v1/chat/completions");
}

pub record ChatMessage : Type 0 where
  pub role : Text
  pub content : Text

unfoldable pub chat_request : Text → Text → Text → List ChatMessage
chat_request text source_lang target_lang =
    record {
      role = txt "system";
      content =
          txt "You are a professional interpreter. Translate the following text from "
          ++ source_lang
          ++ txt " to "
          ++ target_lang
          ++ txt ". Output ONLY the translation. No explanations, no alternatives, no notes.";
    }
    ∷ record { role = txt "user"; content = text }
    ∷ []

-- The error of `client.Do`, or the status, the body, and the contents of the choices in it.
pub data ChatReply : Type 0 where
  no_reply : Text → ChatReply
  reply : ℕ → Text → Option (List Text) → ChatReply

-- `TextTranslator.Translate`, whose service answers a request.
unfoldable pub translate : (List ChatMessage → ChatReply) → Text → Text → Text → ApiError ⊎ Text
translate service text source_lang target_lang =
    elim (service (chat_request text source_lang target_lang)) [
      | no_reply e ↦ inl (http_error e)
      | reply status body choices ↦
          if not (status == 200) then inl (api_error status body) else elim choices [
            | none ↦ inl undecodable
            | some [] ↦ inl empty_response
            | some (content ∷ others) ↦ inr content
          ]
    ]

-- `tts.Config`
pub record SpeechConfig : Type 0 where
  pub api_key : Text
  pub model : Text
  pub voice : Text
  pub base_url : Text

unfoldable pub speech_defaults : SpeechConfig → SpeechConfig
speech_defaults c = record c {
  model = or_default c.model (txt "gpt-4o-mini-tts-2025-12-15");
  voice = or_default c.voice (txt "alloy");
  base_url = or_default c.base_url (txt "https://api.openai.com/v1/audio/speech");
}

-- What a `Read` of the body gives: bytes, and whether there is more, the body is at its end, or it
-- cannot be read.
pub data ReadEnd : Type 0 where
  more eof broken : ReadEnd

pub record Read : Type 0 where
  pub bytes : Text
  pub ending : ReadEnd

abbrev pub go_on : {A : Type 0} → ReadEnd → List A → List A
go_on more rest = rest
go_on eof rest = []
go_on broken rest = []

-- The goroutine of `Synthesize`: each `Read` that has bytes is a chunk.
unfoldable pub chunks : List Read → List Text
chunks [] = []
chunks (r ∷ rs) =
    let rest = chunks rs in
    let later = go_on r.ending rest in if r.bytes == [] then later else r.bytes ∷ later

pub data SpeechReply : Type 0 where
  no_speech : Text → SpeechReply
  speech : ℕ → Text → List Read → SpeechReply

-- `OpenAITTS.Synthesize`
unfoldable pub synthesize : SpeechReply → ApiError ⊎ List Text
synthesize (no_speech e) = inl (http_error e)
synthesize (speech status body rs) =
    if status == 200 then inr (chunks rs) else inl (api_error status body)
