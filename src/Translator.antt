-- ===== src/Translator.antt =====
-- internal/adapters/translator/pipeline_translator.go: the translator that chains speech to text,
-- translation and speech synthesis. A transcript is the list of its runes. The goroutines of the
-- fan-out may finish in any order: their results are a list in the order of arrival. The context
-- is not cancelled.
pub mod Prompt
pub mod Drain
pub mod Order
pub mod InOrder
use talk_go.Prelude.{
  Bool, List, Option, Result, Text, [], err, false, if◌then◌else◌, length, ltb, nat_eq, none, ok,
  some, text_eq, true, ℕ, ◌+◌, ◌==◌, ◌∷◌,
}
use talk_go.Translator.Prompt.{is_prompt_echo, equal_fold}

-- What the service answers: `Translate`, `Synthesize`, the language (as an ISO code) that lingua
-- detects, if it does, and whether the channel of transcripts has room for the n-th phrase.
pub record Engines : Type 0 where
  pub translate : Text → Result Text
  pub synthesize : Text → Result (List Text)
  pub detect : Text → Option Text
  pub has_room : ℕ → Bool

pub record TranslationResult : Type 0 where
  pub seq : ℕ
  pub translated : Text
  pub skipped : Bool

unfoldable pub is_expected_language : Engines → Text → Text → Bool
is_expected_language eng text source_lang =
    if ltb (length text) 8
    then true
    else elim (eng.detect text) [ none ↦ true | some code ↦ equal_fold code source_lang ]

-- The tests of the fan-out.
unfoldable pub accepts : Engines → Text → Text → Bool
accepts eng source_lang original =
    if original == []
    then false
    else if is_prompt_echo original source_lang
    then false
    else is_expected_language eng original source_lang

-- The phrases that are translated, the first with number `seq`.
unfoldable pub fan_out : Engines → Text → ℕ → List Text → List (ℕ × Text)
fan_out eng source_lang seq [] = []
fan_out eng source_lang seq (original ∷ ts) =
    if accepts eng source_lang original
    then (seq, original) ∷ fan_out eng source_lang (seq + 1) ts
    else fan_out eng source_lang seq ts

-- The goroutine of a phrase.
unfoldable pub translate_phrase : Engines → ℕ × Text → TranslationResult
translate_phrase eng (seq, text) = elim (eng.translate text) [
  | err e ↦ record { seq = seq; translated = []; skipped = true }
  | ok translated ↦ record { seq = seq; translated = translated; skipped = false }
]
