-- ===== src/Loadgen/QuickSort.antt =====
-- `quickSort` sorts.
use talk_go.Loadgen.Loop.{partition-Inv}
use talk_go.Prelude.{
  All, Bool, Bool-cases, List, [], ap, arith, drop, false, inl, inr, length, length-drop,
  length-take, ltb, nat_eq, refl, suc, take, text_eq, true, zero, ℕ, ◌++◌, ◌+◌, ◌-◌, ◌<◌, ◌∙◌, ◌∷◌,
  ◌≡◌, ◌≤◌,
}
use talk_go.Loadgen.Ascending.{
  Ascending, Ascending-append, count-append, All-SameCounts, All-at, at-take, at-drop, split_at,
}
use talk_go.Loadgen.Sort.{at, swap, quick_sort, partition}
use talk_go.Loadgen.Scan.{length-swap, at-swap}
use talk_go.Loadgen.Partition.{count, SameCounts, swap-SameCounts, Inv}

-- What stands before the pivot and after it.
module _ (orig c : List ℕ) (pivot k : ℕ) (v : Inv orig c pivot (suc k) k) where
  abbrev placed : List ℕ
  placed = swap c 0 k

  placed_same : SameCounts placed orig
  placed_same w = swap-SameCounts c 0 k (omega (arith, v.last)) v.last w ∙ v.same w

  placed_keeps_size : length placed ≡ length orig
  placed_keeps_size = length-swap c 0 k ∙ v.size

  placed_pivot : at placed k ≡ pivot
  placed_pivot = ground (arith, at-swap c 0 k k, v.head, v.last)

  low_at : (n : ℕ) → n < k → at placed n ≤ pivot
  low_at n h = ground (arith, at-swap c 0 k n, v.low n, v.low k, v.last)

  high_at : (n : ℕ) → k < n → n < length placed → pivot ≤ at placed n
  high_at n h l = ground (arith, at-swap c 0 k n, v.high n, v.last, length-swap c 0 k)

  placed_low : All (λ y. y ≤ at placed k) (take k placed)
  placed_low =
      All-at (λ y. y ≤ at placed k) (take k placed)
        (λ n l.
          let h : n < k = omega (arith, length-take {0} k placed) in
          omega (arith, at-take placed k n h, low_at n h, placed_pivot))

  placed_high : All (λ y. at placed k ≤ y) (drop (suc k) placed)
  placed_high =
      All-at (λ y. at placed k ≤ y) (drop (suc k) placed)
        (λ n l.
          let h =
            high_at (suc k + n) (omega arith) (omega (arith, length-drop {0} (suc k) placed)) in
          omega (arith, at-drop placed (suc k) n, h, placed_pivot))

  there : k < length placed
  there = omega (arith, v.last, length-swap c 0 k)

  left_fits : length (take k placed) < length orig
  left_fits = omega (arith, length-take {0} k placed, there, placed_keeps_size)

  right_fits : length (drop (suc k) placed) < length orig
  right_fits = omega (arith, length-drop {0} (suc k) placed, there, placed_keeps_size)

-- `rand.Intn(n)` is below `n`.
abbrev pub Picks : (List Bool → ℕ → ℕ) → Type 0
Picks pick = (path : List Bool) (n : ℕ) → 0 < n → pick path n < n

short-Ascending : (a : List ℕ) → length a < 2 → Ascending a
short-Ascending [] h = tt
short-Ascending (x ∷ []) h = (tt, tt)
short-Ascending (x ∷ y ∷ a) h = absurd (omega arith)

-- The sorted halves about the pivot.
merged :
    (d l r : List ℕ) (k : ℕ)
    → k < length d
    → All (λ y. y ≤ at d k) (take k d)
    → All (λ y. at d k ≤ y) (drop (suc k) d)
    → Ascending l × SameCounts l (take k d)
    → Ascending r × SameCounts r (drop (suc k) d)
    → Ascending (l ++ at d k ∷ r) × SameCounts (l ++ at d k ∷ r) d
merged d l r k h low high (sl, cl) (sr, cr) =
    let p = at d k in
    (
      Ascending-append l p r sl (All-SameCounts (λ y. y ≤ p) l (take k d) cl low) sr
          (All-SameCounts (λ y. p ≤ y) r (drop (suc k) d) cr high),
      λ v. omega (
        arith,
        count-append v l (p ∷ r),
        count-append v (p ∷ []) r,
        count-append v (p ∷ []) (drop (suc k) d),
        count-append v (take k d) (p ∷ drop (suc k) d),
        cl v,
        cr v,
        ap (count v) (split_at d k h),
      ),
    )

starts : (b : List ℕ) → 2 ≤ length b → Inv b b (at b 0) 1 (length b - 1)
starts b h = record {
  size = refl;
  same = λ v. refl;
  head = refl;
  first = omega arith;
  meet = omega arith;
  last = omega arith;
  low = λ k l u. absurd (omega arith);
  high = λ k l u. absurd (omega arith);
}

-- Whatever indices `rand.Intn` picks, `quickSort` gives the measurements in ascending order, each as
-- often as before; a round for each measurement is enough.
pub quick_sort-Ascending :
    (pick : List Bool → ℕ → ℕ) (fuel : ℕ) (path : List Bool) (a : List ℕ)
    → Picks pick
    → length a ≤ fuel
    → Ascending (quick_sort fuel pick path a) × SameCounts (quick_sort fuel pick path a) a
unfolding quick_sort
quick_sort-Ascending pick zero path a picks h = (short-Ascending a (omega arith), λ v. refl)
quick_sort-Ascending pick (suc fuel) path a picks h = elim (Bool-cases (ltb (length a) 2)) [
  | inl short ↦ rw (short, quick_sort) (short-Ascending a (ground arith), λ v. refl)
  | inr long ↦
      let two : 2 ≤ length a = ground arith in
      let at_pivot = picks path (length a) (omega arith) in
      let b = swap a 0 (pick path (length a)) in
      let size : length b ≡ length a = length-swap a 0 (pick path (length a)) in
      let v =
        partition-Inv (length b) b b (at b 0) 1 (length b - 1) (starts b (omega arith))
          (inl (omega arith)) in
      let (c, k) = partition (length b) b (at b 0) 1 (length b - 1) in
      let d = swap c 0 k in
      let l = quick_sort fuel pick (false ∷ path) (take k d) in
      let r = quick_sort fuel pick (true ∷ path) (drop (suc k) d) in
      let left =
        quick_sort-Ascending pick fuel (false ∷ path) (take k d) picks
          (omega (arith, left_fits b c (at b 0) k v, size)) in
      let right =
        quick_sort-Ascending pick fuel (true ∷ path) (drop (suc k) d) picks
          (omega (arith, right_fits b c (at b 0) k v, size)) in
      let all =
        merged d l r k (there b c (at b 0) k v) (placed_low b c (at b 0) k v)
          (placed_high b c (at b 0) k v) left right in
      rw (long, quick_sort)
        (
          all.0,
          λ w.
              all.1 w
              ∙ placed_same b c (at b 0) k v w
              ∙ swap-SameCounts a 0 (pick path (length a)) (omega arith) at_pivot w,
        )
]
