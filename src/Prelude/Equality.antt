-- ===== src/Prelude/Equality.antt =====
-- Go's `==` on the comparable types of the program.
use Prim.Native.Nat.{ℕ}
use mathlib.Core.Path.{refl, ap, ap₂}
use mathlib.Core.Logic.{ite, dite}
use mathlib.Core.Bool.{Bool, true, false}
use mathlib.Core.List.{List, [], ◌∷◌}
use native.Mathlib.Decide.{ℕ_discrete}

pub record Eq {ℓ} (A : Type ℓ) : Type ℓ where
  pub dec : Discrete A

module _ {ℓ} {A : Type ℓ} ⦃e : Eq A⦄ where
  infix 50 ◌==◌
  abbrev pub ◌==◌ : A → A → Bool
  a == b = ite (e.dec a b) true false

instance abbrev pub nat_eq : Eq ℕ
nat_eq = record { dec = ℕ_discrete }

abbrev pub head_of : List ℕ → ℕ
head_of [] = 0
head_of (x ∷ xs) = x

abbrev pub tail_of : List ℕ → List ℕ
tail_of [] = []
tail_of (x ∷ xs) = xs

unfoldable pub list_dec : Discrete (List ℕ)
list_dec [] [] = yes refl
list_dec [] (y ∷ ys) = no (λ p. cc)
list_dec (x ∷ xs) [] = no (λ p. cc)
list_dec (x ∷ xs) (y ∷ ys) =
    let rest = list_dec xs ys in
    dite (ℕ_discrete x y)
      (λ p. dite rest (λ q. yes (ap₂ ◌∷◌ p q)) (λ n. no (λ e. n (ap tail_of e))))
      (λ n. no (λ e. n (ap head_of e)))

instance unfoldable pub text_eq : Eq (List ℕ)
unfolding list_dec
text_eq = record { dec = list_dec }
