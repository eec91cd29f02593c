-- ===== src/Loadgen/Partition.antt =====
-- What the partition does.
use talk_go.Prelude.{
  List, [], arith, dec_lt, if◌then◌else◌, length, nat_eq, suc, text_eq, zero, ℕ, ◌+◌, ◌<◌, ◌==◌,
  ◌∙◌, ◌∷◌, ◌≡◌, ◌≤◌,
}
use talk_go.Loadgen.Sort.{at, set, swap}
use talk_go.Loadgen.Scan.{length-set, at-set, length-swap, at-swap, Up, Down}

-- How often a value occurs.
abbrev pub count : ℕ → List ℕ → ℕ
count v [] = 0
count v (x ∷ a) = let rest = count v a in if x == v then suc rest else rest

abbrev pub SameCounts : List ℕ → List ℕ → Type 0
SameCounts a b = (v : ℕ) → count v a ≡ count v b

-- One element less, one more.
count-set :
    (a : List ℕ) (i v w : ℕ)
    → i < length a
    → count w (set a i v) + count w (at a i ∷ []) ≡ count w a + count w (v ∷ [])
count-set [] i v w h = absurd (omega arith)
count-set (x ∷ a) zero v w h = ground arith
count-set (x ∷ a) (suc i) v w h = ground (arith, count-set a i v w)

pub swap-SameCounts :
    (a : List ℕ) (i j : ℕ) → i < length a → j < length a → SameCounts (swap a i j) a
unfolding swap
swap-SameCounts a i j hi hj w = ground (
  arith,
  count-set a i (at a j) w,
  count-set (set a i (at a j)) j (at a i) w,
  length-set a i (at a j),
  at-set a i j (at a j),
)

-- Before a round: below `i` no element is above the pivot, above `j` each is.
pub record Inv (orig a : List ℕ) (pivot i j : ℕ) : Type 0 where
  pub size : length a ≡ length orig
  pub same : SameCounts a orig
  pub head : at a 0 ≡ pivot
  pub first : 1 ≤ i
  pub meet : i ≤ suc j
  pub last : j < length a
  pub low : (k : ℕ) → 1 ≤ k → k < i → at a k ≤ pivot
  pub high : (k : ℕ) → j < k → k < length a → pivot < at a k

-- A round without the exchange.
pub narrowed :
    (orig a : List ℕ) (pivot i j i' j' : ℕ)
    → Inv orig a pivot i j
    → Up a pivot i j i'
    → Down a pivot i' j j'
    → Inv orig a pivot i' j'
narrowed orig a pivot i j i' j' v up down = record {
  size = v.size;
  same = v.same;
  head = v.head;
  first = omega (arith, v.first, up.forward);
  meet = down.after;
  last = omega (arith, v.last, down.back);
  low = λ k l u. elim (dec_lt k i) [
    | yes before ↦ v.low k l before
    | no here ↦ up.passed k (omega arith) u
  ];
  high = λ k l u. elim (dec_lt j k) [
    | yes beyond ↦ v.high k beyond u
    | no here ↦ down.left_behind k l (omega arith)
  ];
}

-- The exchange keeps it.
pub exchanged :
    (orig a : List ℕ) (pivot i j : ℕ)
    → i < j
    → Inv orig a pivot i j
    → Inv orig (swap a i j) pivot i j
exchanged orig a pivot i j h v =
    let hi : i < length a = omega (arith, v.last) in
    let hj : j < length a = v.last in
    record {
      size = length-swap a i j ∙ v.size;
      same = λ w. swap-SameCounts a i j hi hj w ∙ v.same w;
      head = ground (arith, at-swap a i j 0, v.head, v.first);
      first = v.first;
      meet = v.meet;
      last = rw (length-swap a i j) hj;
      low = λ k l u. ground (arith, at-swap a i j k, v.low k);
      high = λ k l u. ground (arith, at-swap a i j k, v.high k, length-swap a i j);
    }
