-- ===== src/Loadgen/Ascending.antt =====
-- Lists in ascending order, and what holds of the elements of a list.
use talk_go.Prelude.{
  All, All-append, All-imp, List, [], ap, arith, drop, length, nat_eq, refl, subst, suc, take,
  text_eq, zero, ℕ, ℕ_discrete, ◌++◌, ◌+◌, ◌<◌, ◌∙◌, ◌∷◌, ◌≡◌, ◌≤◌,
}
use talk_go.Loadgen.Sort.{at}
use talk_go.Loadgen.Partition.{count, SameCounts}

-- Each element is at most those after it.
abbrev pub Ascending : List ℕ → Type 0
Ascending [] = Unit {0}
Ascending (x ∷ a) = All (λ y. x ≤ y) a × Ascending a

pub Ascending-append :
    (a : List ℕ) (p : ℕ) (b : List ℕ)
    → Ascending a
    → All (λ y. y ≤ p) a
    → Ascending b
    → All (λ y. p ≤ y) b
    → Ascending (a ++ p ∷ b)
Ascending-append [] p b sa ha sb hb = (hb, sb)
Ascending-append (x ∷ a) p b sa ha sb hb = (
  All-append (λ y. x ≤ y) a (p ∷ b) sa.0
      (ha.0, All-imp (λ y. p ≤ y) (λ y. x ≤ y) b (λ y k. omega (arith, k, ha.0)) hb),
  Ascending-append a p b sa.1 ha.1 sb hb,
)

pub count-append : (v : ℕ) (a b : List ℕ) → count v (a ++ b) ≡ count v a + count v b
count-append v [] b = omega arith
count-append v (x ∷ a) b = ground (arith, count-append v a b)

-- What holds of all elements holds of those of a list with the same counts.
pub All-count : (P : ℕ → Type 0) (a : List ℕ) (v : ℕ) → All P a → 0 < count v a → P v
All-count P [] v h k = absurd (omega arith)
All-count P (x ∷ a) v h k = elim (ℕ_discrete x v) [
  | yes same ↦ subst P same h.0
  | no other ↦ All-count P a v h.1 (ground arith)
]

pub All-of_count : (P : ℕ → Type 0) (a : List ℕ) → ((v : ℕ) → 0 < count v a → P v) → All P a
All-of_count P [] h = tt
All-of_count P (x ∷ a) h = (h x (ground arith), All-of_count P a (λ v k. h v (ground arith)))

pub All-SameCounts : (P : ℕ → Type 0) (a b : List ℕ) → SameCounts a b → All P b → All P a
All-SameCounts P a b same h = All-of_count P a (λ v k. All-count P b v h (omega (arith, same v)))

-- What holds at each index holds of all elements.
pub All-at : (P : ℕ → Type 0) (a : List ℕ) → ((k : ℕ) → k < length a → P (at a k)) → All P a
All-at P [] h = tt
All-at P (x ∷ a) h = (h 0 (omega arith), All-at P a (λ k l. h (suc k) (omega arith)))

pub at-take : (a : List ℕ) (n k : ℕ) → k < n → at (take n a) k ≡ at a k
at-take a zero k h = absurd (omega arith)
at-take [] (suc n) k h = refl
at-take (x ∷ a) (suc n) zero h = refl
at-take (x ∷ a) (suc n) (suc k) h = at-take a n k (omega arith)

pub at-drop : (a : List ℕ) (n k : ℕ) → at (drop n a) k ≡ at a (n + k)
at-drop a zero k = ap (at a) (omega arith)
at-drop [] (suc n) k = refl
at-drop (x ∷ a) (suc n) k =
    let same : suc (n + k) ≡ suc n + k = omega arith in at-drop a n k ∙ ap (at (x ∷ a)) same

pub split_at : (a : List ℕ) (j : ℕ) → j < length a → take j a ++ at a j ∷ drop (suc j) a ≡ a
split_at [] j h = absurd (omega arith)
split_at (x ∷ a) zero h = refl
split_at (x ∷ a) (suc j) h = ap (λ (l : List ℕ). x ∷ l) (split_at a j (omega arith))
