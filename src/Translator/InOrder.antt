-- ===== src/Translator/InOrder.antt =====
-- The output of `TranslateStream`, from the transcripts on.
use talk_go.Prelude.{
  Distinct, List, Text, [], ap, append-nil, append_assoc, arith, contains, get_or, length, ltb, map,
  nat_eq, refl, suc, sym, take, text_eq, zero, ℕ, ◌++◌, ◌+◌, ◌<◌, ◌∙◌, ◌∷◌, ◌≡◌, ◌≤◌,
}
use talk_go.Translator.{Engines, TranslationResult, fan_out, translate_phrase}
use talk_go.Translator.Drain.{Output, new_drainer, emit, drain_all}
use talk_go.Translator.Order.{spoken, drained}

-- The outputs of results in the order given.
unfoldable pub emit_all : Engines → List TranslationResult → List Output
emit_all eng [] = []
emit_all eng (r ∷ rs) = emit eng r ++ emit_all eng rs

emit_all-snoc :
    (eng : Engines) (rs : List TranslationResult) (r : TranslationResult)
    → emit_all eng (rs ++ r ∷ []) ≡ emit_all eng rs ++ emit eng r
unfolding emit_all
emit_all-snoc eng [] r = append-nil (emit eng r)
emit_all-snoc eng (x ∷ rs) r =
    ap (λ (l : List Output). emit eng x ++ l) (emit_all-snoc eng rs r)
    ∙ sym (append_assoc (emit eng x) _ _)

-- The result for the k-th phrase of a list.
abbrev pub result_at : Engines → List (ℕ × Text) → ℕ → TranslationResult
result_at eng phrases k = translate_phrase eng (get_or phrases k (k, []))

take-suc :
    (phrases : List (ℕ × Text)) (k : ℕ) (d : ℕ × Text)
    → k < length phrases
    → take (suc k) phrases ≡ take k phrases ++ get_or phrases k d ∷ []
take-suc [] k d h = absurd (omega arith)
take-suc (p ∷ ps) zero d h = refl
take-suc (p ∷ ps) (suc k) d h = ap (λ (l : List (ℕ × Text)). p ∷ l) (take-suc ps k d (omega arith))

map-snoc :
    {A B : Type 0} (f : A → B) (xs : List A) (x : A) → map f (xs ++ x ∷ []) ≡ map f xs ++ f x ∷ []
map-snoc f [] x = refl
map-snoc f (y ∷ xs) x = ap (λ l. f y ∷ l) (map-snoc f xs x)

spoken-take :
    (eng : Engines) (phrases : List (ℕ × Text)) (k : ℕ)
    → k ≤ length phrases
    → spoken eng (result_at eng phrases) k
      ≡ emit_all eng (map (translate_phrase eng) (take k phrases))
unfolding spoken emit_all
spoken-take eng phrases zero h = refl
spoken-take eng phrases (suc k) h =
    rw
      (
        take-suc phrases k (k, []) (omega arith),
        map-snoc (translate_phrase eng) (take k phrases) (get_or phrases k (k, [])),
        emit_all-snoc eng (map (translate_phrase eng) (take k phrases)) (result_at eng phrases k),
        spoken-take eng phrases k (omega arith),
      )
      refl

take-length : {A : Type 0} (xs : List A) → take (length xs) xs ≡ xs
take-length [] = refl
take-length (x ∷ xs) = ap (λ l. x ∷ l) (take-length xs)

fan_out-number :
    (eng : Engines) (lang : Text) (ts : List Text) (seq k n : ℕ)
    → n ≡ seq + k
    → (get_or (fan_out eng lang seq ts) k (n, [])).0 ≡ n
unfolding fan_out
fan_out-number eng lang [] seq k n h = refl
fan_out-number eng lang (t ∷ ts) seq zero n h =
    ground (arith, fan_out-number eng lang ts seq zero n h)
fan_out-number eng lang (t ∷ ts) seq (suc k) n h = ground (
  arith,
  fan_out-number eng lang ts (seq + 1) k n (omega (arith, h)),
  fan_out-number eng lang ts seq (suc k) n h,
)

translate_phrase-seq : (eng : Engines) (p : ℕ × Text) → (translate_phrase eng p).seq ≡ p.0
unfolding translate_phrase
translate_phrase-seq eng (seq, text) = ground arith

-- The phrases that pass the tests of the fan-out are translated, and go out in the order in which
-- they were spoken, each once, whatever the order `arrivals` in which their translations come back;
-- those whose translation fails are left out. An index stands in `arrivals` once, for each phrase.
pub spoken_in_order :
    (eng : Engines) (lang : Text) (ts : List Text) (arrivals : List ℕ)
    → Distinct arrivals
    → ((k : ℕ) → contains k arrivals ≡ ltb k (length (fan_out eng lang 0 ts)))
    → (drain_all eng new_drainer (map (result_at eng (fan_out eng lang 0 ts)) arrivals)).out
      ≡ emit_all eng (map (translate_phrase eng) (fan_out eng lang 0 ts))
spoken_in_order eng lang ts arrivals once all =
    let phrases = fan_out eng lang 0 ts in
    drained eng (result_at eng phrases)
      (λ k.
        translate_phrase-seq eng (get_or phrases k (k, []))
        ∙ fan_out-number eng lang ts 0 k k (omega arith))
      (length phrases) arrivals once all
    ∙ spoken-take eng phrases (length phrases) (omega arith)
    ∙ ap (λ l. emit_all eng (map (translate_phrase eng) l)) (take-length phrases)
