-- ===== src/OpenAi/Stt.antt =====
-- internal/adapters/translator/openai_whisper_stt.go: from audio frames to transcripts. A transcript
-- is the list of its runes.
use talk_go.Prelude.{
  Bool, List, Option, Text, [], if◌then◌else◌, inl, inr, leb, length, nat_eq, none, some, text_eq,
  txt, ℕ, ◌+◌, ◌==◌, ◌||◌, ◌∷◌, ◌⊎◌,
}

-- The messages of the service, until it can no longer be read. `failure` has the code of its error,
-- which is empty if it has none.
pub data SttMessage : Type 0 where
  delta other : SttMessage
  completed failure : Text → SttMessage

-- The codes after which the receiver goes on.
unfoldable pub is_warning : Text → Bool
is_warning code = code == txt "unknown_parameter" || code == txt "invalid_value"

-- The receiver of `Transcribe`.
unfoldable pub transcripts : List SttMessage → List Text
transcripts [] = []
transcripts (delta ∷ ms) = transcripts ms
transcripts (other ∷ ms) = transcripts ms
transcripts (completed t ∷ ms) =
    let rest = transcripts ms in if leb 3 (length t) then t ∷ rest else rest
transcripts (failure code ∷ ms) = let rest = transcripts ms in if is_warning code then rest else []

-- The sender: the frames that are written before the first that cannot be. `write n` is the outcome
-- of the n-th.
unfoldable pub written : (ℕ → Bool) → ℕ → List Text → List Text
written write n [] = []
written write n (frame ∷ frames) =
    let rest = written write (n + 1) frames in if write n then frame ∷ rest else []

-- `Transcribe`: an error of the dial or of the first message, or the transcripts.
unfoldable pub transcribe : Option Text → Option Text → List SttMessage → Text ⊎ List Text
transcribe (some e) sent ms = inl e
transcribe none (some e) ms = inl e
transcribe none none ms = inr (transcripts ms)
