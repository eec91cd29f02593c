-- ===== src/Examples/TranslatorRuns.antt =====
-- The translator: three phrases whose translations come back in another order.
use talk_go.Prelude.{
  Distinct, List, Text, [], arith, contains, err, if◌then◌else◌, ltb, map, nat_eq, none, ok, refl,
  short_read, text_eq, txt, ℕ, ℕ_discrete, ◌++◌, ◌==◌, ◌∷◌, ◌≡◌,
}
use talk_go.Translator.Prompt.{is_prompt_echo, stt_prompt_for_lang, is_space, trim_left, trim_right}
use talk_go.Translator.{accepts, is_expected_language, Engines, fan_out, translate_phrase}
use talk_go.Translator.Drain.{new_drainer, drain_all}
use talk_go.Translator.InOrder.{spoken_in_order, result_at, emit_all}

-- `b` cannot be translated; the channel of transcripts takes the first phrase only.
abbrev pub engines : Engines
engines = record {
  translate = λ text. if text == txt "b" then err short_read else ok (txt "<" ++ text);
  synthesize = λ text. ok (text ∷ []);
  detect = λ text. none;
  has_room = λ n. n == 0;
}

abbrev pub transcripts : List Text
transcripts = txt "a" ∷ [] ∷ txt "b" ∷ txt "Conversation in English." ∷ txt "c" ∷ []

abbrev pub arrivals : List ℕ
arrivals = 2 ∷ 0 ∷ 1 ∷ []

abbrev phrases : List (ℕ × Text)
phrases = (0, txt "a") ∷ (1, txt "b") ∷ (2, txt "c") ∷ []

pub fanned : fan_out engines (txt "en") 0 transcripts ≡ phrases
unfolding fan_out accepts is_prompt_echo stt_prompt_for_lang is_space trim_left trim_right
    is_expected_language text_eq ℕ_discrete
fanned = refl

pub each_once : Distinct arrivals
unfolding contains ℕ_discrete
each_once = (refl, (refl, (refl, tt)))

pub each_there : (k : ℕ) → contains k arrivals ≡ ltb k 3
unfolding contains
each_there k = ground arith

spoken_in_order_example :
    (drain_all engines new_drainer
      (map (result_at engines (fan_out engines (txt "en") 0 transcripts)) arrivals)).out
    ≡ emit_all engines (map (translate_phrase engines) (fan_out engines (txt "en") 0 transcripts))
spoken_in_order_example =
    spoken_in_order engines (txt "en") transcripts arrivals each_once
      (λ k. rw fanned (each_there k))
