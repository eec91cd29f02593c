-- ===== src/Examples/OpenAiRuns.antt =====
-- The clients of OpenAI's services.
use talk_go.Prelude.{
  List, [], inl, inr, list_dec, nat_eq, none, refl, some, text_eq, txt, ℕ_discrete, ◌∷◌, ◌≡◌,
}
use talk_go.OpenAi.{Read, more, eof, translate, reply, empty_response, api_error}
use talk_go.OpenAi.Stt.{transcripts, completed, failure, delta, is_warning}

abbrev pub reads : List Read
reads =
    record { bytes = 1 ∷ 0 ∷ 2 ∷ 0 ∷ []; ending = more }
    ∷ record { bytes = []; ending = more }
    ∷ record { bytes = 3 ∷ 0 ∷ []; ending = eof }
    ∷ []

translate_run :
    (translate (λ ms. reply 200 [] (some (txt "hola" ∷ []))) (txt "hi") (txt "en") (txt "es")
      ≡ inr (txt "hola"))
    × (translate (λ ms. reply 200 [] (some [])) (txt "hi") (txt "en") (txt "es")
        ≡ inl empty_response)
    × (translate (λ ms. reply 429 (txt "no") none) (txt "hi") (txt "en") (txt "es")
        ≡ inl (api_error 429 (txt "no")))
unfolding translate ℕ_discrete
translate_run = (refl, refl, refl)

transcripts_run :
    transcripts (
      delta
      ∷ completed (txt "one")
      ∷ completed (txt "no")
      ∷ failure (txt "invalid_value")
      ∷ completed (txt "two")
      ∷ failure []
      ∷ completed (txt "three")
      ∷ [])
    ≡ txt "one" ∷ txt "two" ∷ []
unfolding transcripts is_warning text_eq list_dec ℕ_discrete
transcripts_run = refl
