-- ===== src/Translator/Order.antt =====
-- Whatever order the results arrive in, the phrases go out in the order in which they were spoken.
use talk_go.Prelude.{
  Bool, Distinct, List, Option-cases, [], ap, arith, below, contains, dec_lt, false, if◌then◌else◌,
  inl, inr, leb, length, ltb, map, nat_eq, none, refl, some, suc, sym, text_eq, true, zero, ℕ, ◌&&◌,
  ◌++◌, ◌<◌, ◌==◌, ◌||◌, ◌∙◌, ◌∷◌, ◌≡◌, ◌≤◌,
}
use talk_go.Prelude.Dict.{Dict, lookup, erase, lookup-insert, lookup-erase, insert}
use talk_go.Translator.{Engines, TranslationResult}
use talk_go.Translator.Drain.{Drainer, Output, emit, drain, arrive, drain_all, new_drainer}

length-erase-le : {V : Type 0} (k : ℕ) (m : Dict ℕ V) → length (erase k m) ≤ length m
unfolding erase
length-erase-le k [] = omega arith
length-erase-le k ((j, v) ∷ m) = ground (arith, length-erase-le k m)

length-erase-lt :
    {V : Type 0} (k : ℕ) (v : V) (m : Dict ℕ V)
    → lookup k m ≡ some v
    → length (erase k m) < length m
unfolding erase lookup
length-erase-lt k v [] h = cc
length-erase-lt k v ((j, w) ∷ m) h = ground (arith, length-erase-lt k v m, length-erase-le k m)

-- The outputs of the first `n` phrases, in their order.
unfoldable pub spoken : Engines → (ℕ → TranslationResult) → ℕ → List Output
spoken eng f zero = []
spoken eng f (suc n) = spoken eng f n ++ emit eng (f n)

module _ (eng : Engines) (f : ℕ → TranslationResult) (numbered : (k : ℕ) → (f k).seq ≡ k) where
  -- What holds of a drainer at which the results with numbers in `seen` have arrived.
  record Drained (seen : ℕ → Bool) (d : Drainer) : Type 0 where
    out_is : d.out ≡ spoken eng f d.next_expected
    before : (k : ℕ) → k < d.next_expected → seen k ≡ true
    held :
        (k : ℕ)
        → lookup k d.pending ≡ (if leb d.next_expected k && seen k then some (f k) else none)

  drain-Drained :
      (seen : ℕ → Bool) (fuel : ℕ) (d : Drainer) → Drained seen d → Drained seen (drain eng fuel d)
  unfolding drain spoken
  drain-Drained seen zero d h = h
  drain-Drained seen (suc fuel) d h = elim (Option-cases (lookup d.next_expected d.pending)) [
    | inl e ↦ rw (e, drain) h
    | inr (r, e) ↦
        rw (e, drain)
          (drain-Drained seen fuel _ (record {
            out_is = ground (arith, h.out_is, h.held d.next_expected);
            before = λ k lt. ground (arith, h.before k, h.held d.next_expected);
            held = λ k. ground (arith, h.held k, lookup-erase d.next_expected k d.pending);
          }))
  ]

  -- With enough fuel, the loop ends because the next result has not arrived.
  drain_stuck :
      (fuel : ℕ) (d : Drainer)
      → length d.pending ≤ fuel
      → lookup (drain eng fuel d).next_expected (drain eng fuel d).pending ≡ none
  unfolding drain
  drain_stuck zero d h = elim (Option-cases (lookup d.next_expected d.pending)) [
    | inl e ↦ e
    | inr (r, e) ↦ absurd (omega (arith, length-erase-lt d.next_expected r d.pending e))
  ]
  drain_stuck (suc fuel) d h = elim (Option-cases (lookup d.next_expected d.pending)) [
    | inl e ↦ rw (e, drain) e
    | inr (r, e) ↦
        rw (e, drain)
          (drain_stuck fuel _ (omega (arith, length-erase-lt d.next_expected r d.pending e)))
  ]

  arrive-Drained :
      (seen : ℕ → Bool) (k : ℕ) (d : Drainer)
      → seen k ≡ false
      → Drained seen d
      → Drained (λ j. if k == j then true else seen j) (arrive eng d (f k))
  unfolding arrive
  arrive-Drained seen k d new h = drain-Drained _ _ _ (record {
    out_is = h.out_is;
    before = λ j lt. ground (arith, h.before j);
    held = λ j.
        ground (arith, h.held j, h.before k, numbered k, lookup-insert (f k).seq j (f k) d.pending);
  })

  Drained-ext :
      (seen seen' : ℕ → Bool) (d : Drainer)
      → ((k : ℕ) → seen k ≡ seen' k)
      → Drained seen d
      → Drained seen' d
  Drained-ext seen seen' d same h = record {
    out_is = h.out_is;
    before = λ k lt. sym (same k) ∙ h.before k lt;
    held = λ k. rw (← same k) (h.held k);
  }

  drain_all-Drained :
      (seen : ℕ → Bool) (ks : List ℕ) (d : Drainer)
      → Distinct ks
      → ((k : ℕ) → contains k ks ≡ true → seen k ≡ false)
      → Drained seen d
      → Drained (λ k. contains k ks || seen k) (drain_all eng d (map f ks))
  unfolding drain_all contains
  drain_all-Drained seen [] d once new h = h
  drain_all-Drained seen (k ∷ ks) d once new h =
      Drained-ext _ _ _ (λ j. ground arith)
        (drain_all-Drained (λ j. if k == j then true else seen j) ks (arrive eng d (f k)) once.1
          (λ j here. ground (arith, new j, once.0))
          (arrive-Drained seen k d (ground (arith, new k)) h))

  abbrev Stuck : Drainer → Type 0
  Stuck d = lookup d.next_expected d.pending ≡ none

  drain_all-Stuck :
      (rs : List TranslationResult) (d : Drainer) → Stuck d → Stuck (drain_all eng d rs)
  unfolding drain_all arrive
  drain_all-Stuck [] d h = h
  drain_all-Stuck (r ∷ rs) d h =
      let d' = record d { pending = insert r.seq r d.pending } in
      drain_all-Stuck rs (arrive eng d r) (drain_stuck (length d'.pending) d' (omega arith))

  -- All the results with numbers below `n`, each once, in any order.
  pub drained :
      (n : ℕ) (ks : List ℕ)
      → Distinct ks
      → ((k : ℕ) → contains k ks ≡ ltb k n)
      → (drain_all eng new_drainer (map f ks)).out ≡ spoken eng f n
  unfolding spoken lookup
  drained n ks once all =
      let d = drain_all eng new_drainer (map f ks) in
      let h = drain_all-Drained (λ k. false) ks new_drainer once (λ k here. refl) start in
      let stuck = drain_all-Stuck (map f ks) new_drainer refl in
      let same : d.next_expected ≡ n =
        ends d (λ k lt. ground (arith, h.before k lt, all k))
          (ground (arith, h.held d.next_expected, all d.next_expected)) in
      h.out_is ∙ ap (spoken eng f) same
    where
      start : Drained (λ k. false) new_drainer
      start = record {
        out_is = refl;
        before = λ k lt. absurd (omega arith);
        held = λ k. ground arith;
      }

      ends :
          (d : Drainer)
          → ((k : ℕ) → k < d.next_expected → k < n)
          → n ≤ d.next_expected
          → d.next_expected ≡ n
      ends d below above = elim (dec_lt n d.next_expected) [
        | yes lt ↦ absurd (omega (arith, below n lt))
        | no ge ↦ omega arith
      ]
