-- ===== src/Loadgen/Loop.antt =====
-- The partition ends, with the pivot's place known.
use talk_go.Prelude.{
  Bool-cases, List, arith, dec_lt, inl, inr, leb, length, ltb, nat_eq, subst, suc, text_eq, zero, ℕ,
  ℕ_discrete, ◌-◌, ◌<◌, ◌≡◌, ◌≤◌, ◌⊎◌,
}
use talk_go.Loadgen.Sort.{at, swap, scan_up, scan_down, partition}
use talk_go.Loadgen.Scan.{at-swap, Up, Down, scan_up-Up, scan_down-Down}
use talk_go.Loadgen.Partition.{Inv, narrowed, exchanged}

-- Enough rounds are left: one for each index, and one more unless this round passes an element.
abbrev Enough : ℕ → List ℕ → ℕ → ℕ → ℕ → Type 0
Enough fuel a pivot i j = (suc j - i < fuel) ⊎ ((suc j - i ≤ fuel) × (i ≤ j → at a i ≤ pivot))

spent : (a : List ℕ) (pivot i j : ℕ) → Enough 0 a pivot i j → i ≤ suc j → i ≡ suc j
spent a pivot i j (inl many) h = absurd (omega arith)
spent a pivot i j (inr (few, small)) h = omega arith

swapped_small :
    (a : List ℕ) (pivot i j : ℕ) → i < j → j < length a → at a j ≤ pivot → at (swap a i j) i ≤ pivot
swapped_small a pivot i j less last small = ground (arith, at-swap a i j i)

module _ (orig a : List ℕ) (pivot i j i' j' : ℕ) (up : Up a pivot i j i')
    (down : Down a pivot i' j j') where
  shorter : (fuel : ℕ) → i ≤ j → Enough (suc fuel) a pivot i j → suc j' - i' ≤ fuel
  shorter fuel h (inl many) = omega (arith, up.forward, down.back)
  shorter fuel h (inr (many, small)) = elim (ℕ_discrete i i') [
    | no moved ↦ omega (arith, up.forward, down.back)
    | yes stuck ↦ ground (arith, small h, up.stopped, h)
  ]

  crossed : i ≤ j → j' ≤ i' → i' ≡ suc j'
  crossed h over = elim (dec_lt j' i') [
    | yes beyond ↦ omega (arith, down.after)
    | no equal ↦
        let same : i' ≡ j' = omega arith in
        let large = up.stopped (omega (arith, down.back)) in
        let small = down.halted (omega arith) in absurd (ground (arith, same, large, small))
  ]

pub partition-Inv :
    (fuel : ℕ) (orig a : List ℕ) (pivot i j : ℕ)
    → Inv orig a pivot i j
    → Enough fuel a pivot i j
    → (let (c, k) = partition fuel a pivot i j in Inv orig c pivot (suc k) k)
unfolding partition
partition-Inv zero orig a pivot i j v enough =
    subst (λ (n : ℕ). Inv orig a pivot n j) (spent a pivot i j enough v.meet) v
partition-Inv (suc fuel) orig a pivot i j v enough = elim (Bool-cases (leb i j)) [
  | inr over ↦
      let done : i ≡ suc j = ground (arith, v.meet) in
      rw (over, partition) (subst (λ (n : ℕ). Inv orig a pivot n j) done v)
  | inl on ↦
      let h : i ≤ j = ground arith in
      let i' = scan_up (suc j - i) a pivot i j in
      let j' = scan_down (suc j - i') a pivot i' j in
      let up = scan_up-Up (suc j - i) a pivot i j v.meet (omega arith) in
      let down =
        scan_down-Down (suc j - i') a pivot i' j (omega (arith, v.first, up.forward)) up.within
          (omega arith) in
      let v' = narrowed orig a pivot i j i' j' v up down in
      let fewer = shorter orig a pivot i j i' j' up down fuel h enough in
      rw (on, partition)
        (elim (Bool-cases (ltb i' j')) [
          | inl apart ↦
              let less : i' < j' = ground arith in
              let swapped = exchanged orig a pivot i' j' less v' in
              rw apart (
                partition-Inv fuel orig (swap a i' j') pivot i' j' swapped
                  (inr (fewer, λ l. swapped_small a pivot i' j' less v'.last (down.halted l))))
          | inr met ↦
              let done = crossed orig a pivot i j i' j' up down h (ground arith) in
              rw met
                (partition-Inv fuel orig a pivot i' j' v' (inr (fewer, λ l. absurd (omega arith))))
        ])
]
