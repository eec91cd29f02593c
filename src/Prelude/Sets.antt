-- ===== src/Prelude/Sets.antt =====
-- Go maps to `struct{}`, which the program uses as sets: lists without repetition.
use Prim.Native.Nat.{◌≤◌, ◌<◌}
use mathlib.Core.Path.{◌≡◌, refl}
use mathlib.Core.Logic.{ite}
use mathlib.Core.Bool.{Bool, true, false}
use mathlib.Core.List.{List, [], ◌∷◌, ◌++◌}
use native.Mathlib.Omega.{arith}
use talk_go.Prelude.Equality.{Eq, ◌==◌}
use talk_go.Prelude.Tests.{if◌then◌else◌}
use talk_go.Prelude.Lists.{length}

module _ {A : Type 0} ⦃e : Eq A⦄ where
  -- `_, ok := m[a]`
  unfoldable pub contains : A → List A → Bool
  contains a [] = false
  contains a (x ∷ xs) = ite (e.dec x a) true (contains a xs)

  -- `delete(m, a)`
  unfoldable pub remove : A → List A → List A
  remove a [] = []
  remove a (x ∷ xs) = let rest = remove a xs in ite (e.dec x a) rest (x ∷ rest)

  abbrev pub Distinct : List A → Type 0
  Distinct [] = Unit {0}
  Distinct (x ∷ xs) = (contains x xs ≡ false) × Distinct xs

  pub contains-snoc :
      (a x : A) (xs : List A) → contains a (xs ++ x ∷ []) ≡ (if x == a then true else contains a xs)
  unfolding contains
  contains-snoc a x [] = ground arith
  contains-snoc a x (y ∷ xs) = ground (arith, contains-snoc a x xs)

  pub contains-remove :
      (a b : A) (xs : List A) → contains b (remove a xs) ≡ (if a == b then false else contains b xs)
  unfolding contains remove
  contains-remove a b [] = ground arith
  contains-remove a b (x ∷ xs) = ground (arith, contains-remove a b xs)

  pub length-remove-le : (a : A) (xs : List A) → length (remove a xs) ≤ length xs
  unfolding remove
  length-remove-le a [] = omega arith
  length-remove-le a (x ∷ xs) = ground (arith, length-remove-le a xs)

  -- A member that leaves frees a place.
  pub length-remove-lt :
      (a : A) (xs : List A) → contains a xs ≡ true → length (remove a xs) < length xs
  unfolding remove contains
  length-remove-lt a [] h = cc
  length-remove-lt a (x ∷ xs) h = ground (arith, length-remove-lt a xs, length-remove-le a xs)

  pub remove_absent : (a : A) (xs : List A) → contains a xs ≡ false → remove a xs ≡ xs
  unfolding remove contains
  remove_absent a [] h = refl
  remove_absent a (x ∷ xs) h = ground (arith, remove_absent a xs)

  pub remove-snoc : (a : A) (xs : List A) → contains a xs ≡ false → remove a (xs ++ a ∷ []) ≡ xs
  unfolding remove contains
  remove-snoc a [] h = ground arith
  remove-snoc a (x ∷ xs) h = ground (arith, remove-snoc a xs)

  pub Distinct-snoc :
      (a : A) (xs : List A) → contains a xs ≡ false → Distinct xs → Distinct (xs ++ a ∷ [])
  unfolding contains
  Distinct-snoc a [] h d = (refl, tt)
  Distinct-snoc a (x ∷ xs) h d = ground (arith, contains-snoc x a xs, Distinct-snoc a xs)

  pub Distinct-remove : (a : A) (xs : List A) → Distinct xs → Distinct (remove a xs)
  unfolding remove
  Distinct-remove a [] d = tt
  Distinct-remove a (x ∷ xs) d = ground (arith, contains-remove a x xs, Distinct-remove a xs)
