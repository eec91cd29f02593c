-- ===== src/Loadgen/Scan.antt =====
-- The loops of the partition.
use talk_go.Prelude.{
  Bool-cases, List, [], arith, if◌then◌else◌, inl, inr, leb, length, ltb, nat_eq, refl, subst, suc,
  text_eq, zero, ℕ, ℕ_discrete, ◌&&◌, ◌-◌, ◌<◌, ◌==◌, ◌∙◌, ◌∷◌, ◌≡◌, ◌≤◌,
}
use talk_go.Loadgen.Sort.{at, set, swap, scan_up, scan_down}

pub length-set : (a : List ℕ) (n v : ℕ) → length (set a n v) ≡ length a
length-set (old ∷ rest) (suc n) v = omega (arith, length-set rest n v)
length-set (old ∷ rest) zero v = refl
length-set [] n v = refl

pub at-set :
    (a : List ℕ) (i k v : ℕ) → i < length a → at (set a i v) k ≡ (if i == k then v else at a k)
unfolding ℕ_discrete
at-set [] i k v h = absurd (omega arith)
at-set (x ∷ a) zero zero v h = refl
at-set (x ∷ a) zero (suc k) v h = ground arith
at-set (x ∷ a) (suc i) zero v h = ground arith
at-set (x ∷ a) (suc i) (suc k) v h = ground (arith, at-set a i k v)

pub length-swap : (a : List ℕ) (i j : ℕ) → length (swap a i j) ≡ length a
unfolding swap
length-swap a i j = length-set (set a i (at a j)) j (at a i) ∙ length-set a i (at a j)

pub at-swap :
    (a : List ℕ) (i j k : ℕ)
    → i < length a
    → j < length a
    → at (swap a i j) k ≡ (if j == k then at a i else if i == k then at a j else at a k)
unfolding swap
at-swap a i j k hi hj =
    ground (
      arith,
      at-set (set a i (at a j)) j k (at a i),
      at-set a i k (at a j),
      length-set a i (at a j),
    )

-- Where the first inner loop stops.
pub record Up (a : List ℕ) (pivot i j i' : ℕ) : Type 0 where
  pub forward : i ≤ i'
  pub within : i' ≤ suc j
  pub passed : (k : ℕ) → i ≤ k → k < i' → at a k ≤ pivot
  pub stopped : i' ≤ j → pivot < at a i'

pub scan_up-Up :
    (fuel : ℕ) (a : List ℕ) (pivot i j : ℕ)
    → i ≤ suc j
    → suc j - i ≤ fuel
    → Up a pivot i j (scan_up fuel a pivot i j)
unfolding scan_up
scan_up-Up zero a pivot i j h f = record {
  forward = omega arith;
  within = omega arith;
  passed = λ k l u. absurd (omega arith);
  stopped = λ l. absurd (omega arith);
}
scan_up-Up (suc fuel) a pivot i j h f = elim (Bool-cases (leb i j && leb (at a i) pivot)) [
  | inl on ↦
      let in_range : i ≤ j = ground arith in
      let small : at a i ≤ pivot = ground arith in
      let rest = scan_up-Up fuel a pivot (suc i) j (omega arith) (omega arith) in
      rw (on, scan_up)
        (record {
          forward = omega (arith, rest.forward);
          within = rest.within;
          passed = λ k l u. elim (ℕ_discrete i k) [
            | yes same ↦ subst (λ n. at a n ≤ pivot) same small
            | no later ↦ rest.passed k (omega arith) u
          ];
          stopped = rest.stopped;
        })
  | inr off ↦
      rw (off, scan_up)
        (record {
          forward = omega arith;
          within = h;
          passed = λ k l u. absurd (omega arith);
          stopped = λ l. ground arith;
        })
]

-- Where the second stops.
pub record Down (a : List ℕ) (pivot i j j' : ℕ) : Type 0 where
  pub back : j' ≤ j
  pub after : i ≤ suc j'
  pub left_behind : (k : ℕ) → j' < k → k ≤ j → pivot < at a k
  pub halted : i ≤ j' → at a j' ≤ pivot

pub scan_down-Down :
    (fuel : ℕ) (a : List ℕ) (pivot i j : ℕ)
    → 1 ≤ i
    → i ≤ suc j
    → suc j - i ≤ fuel
    → Down a pivot i j (scan_down fuel a pivot i j)
unfolding scan_down
scan_down-Down zero a pivot i j one h f = record {
  back = omega arith;
  after = h;
  left_behind = λ k l u. absurd (omega arith);
  halted = λ l. absurd (omega arith);
}
scan_down-Down (suc fuel) a pivot i j one h f = elim (Bool-cases (leb i j && ltb pivot (at a j))) [
  | inl on ↦
      let in_range : i ≤ j = ground arith in
      let large : pivot < at a j = ground arith in
      let rest = scan_down-Down fuel a pivot i (j - 1) one (omega arith) (omega arith) in
      rw (on, scan_down)
        (record {
          back = omega (arith, rest.back);
          after = rest.after;
          left_behind = λ k l u. elim (ℕ_discrete j k) [
            | yes same ↦ subst (λ n. pivot < at a n) same large
            | no earlier ↦ rest.left_behind k l (omega arith)
          ];
          halted = rest.halted;
        })
  | inr off ↦
      rw (off, scan_down)
        (record {
          back = omega arith;
          after = h;
          left_behind = λ k l u. absurd (omega arith);
          halted = λ l. ground arith;
        })
]
