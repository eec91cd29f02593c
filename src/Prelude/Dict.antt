-- ===== src/Prelude/Dict.antt =====
-- Go maps, as association lists. `range` over a map goes through the entries in list order, which
-- is one of the orders that Go may take.
use mathlib.Core.Path.{◌≡◌, refl}
use mathlib.Core.Logic.{ite, ◌≢◌, ◌⊎◌, inl, inr}
use mathlib.Core.List.{List, [], ◌∷◌, map}
use mathlib.Core.Option.{Option, none, some}
use native.Mathlib.Omega.{arith}
use talk_go.Prelude.Tests.{if◌then◌else◌}
use talk_go.Prelude.Equality.{Eq, ◌==◌}

abbrev pub Dict : Type 0 → Type 0 → Type 0
Dict K V = List (K × V)

abbrev pub values : {K V : Type 0} → Dict K V → List V
values = map (λ (_, v). v)

module _ {K V : Type 0} ⦃e : Eq K⦄ where
  -- `v, ok := m[k]`
  unfoldable pub lookup : K → Dict K V → Option V
  lookup k [] = none
  lookup k ((j, v) ∷ m) = ite (e.dec j k) (some v) (lookup k m)

  -- `m[k] = v`
  unfoldable pub insert : K → V → Dict K V → Dict K V
  insert k v [] = (k, v) ∷ []
  insert k v ((j, w) ∷ m) = ite (e.dec j k) ((k, v) ∷ m) ((j, w) ∷ insert k v m)

  -- `delete(m, k)`: every entry of the key, of which a Go map has at most one.
  unfoldable pub erase : K → Dict K V → Dict K V
  erase k [] = []
  erase k ((j, w) ∷ m) = let rest = erase k m in ite (e.dec j k) rest ((j, w) ∷ rest)

  pub lookup-insert :
      (k j : K) (v : V) (m : Dict K V)
      → lookup j (insert k v m) ≡ (if k == j then some v else lookup j m)
  unfolding lookup insert
  lookup-insert k j v [] = ground arith
  lookup-insert k j v ((i, w) ∷ m) = ground (arith, lookup-insert k j v m)

  pub lookup-erase :
      (k j : K) (m : Dict K V) → lookup j (erase k m) ≡ (if k == j then none else lookup j m)
  unfolding lookup erase
  lookup-erase k j [] = ground arith
  lookup-erase k j ((i, w) ∷ m) = ground (arith, lookup-erase k j m)

pub lookup-nil : {K V : Type 0} ⦃e : Eq K⦄ (k : K) → lookup {V = V} k [] ≡ none
unfolding lookup
lookup-nil k = refl

pub ruleset dict_laws = (lookup-nil, lookup-insert, lookup-erase)

module _ {K V : Type 0} ⦃e' : Eq K⦄ where
  -- `m'` is `m` with the entry of `k` made `v`, or removed if `v` is `none`.
  abbrev pub Updates : K → Option V → Dict K V → Dict K V → Type 0
  Updates k v m m' = (j : K) → lookup j m' ≡ (if k == j then v else lookup j m)

  pub insert-Updates : (k : K) (v : V) (m : Dict K V) → Updates k (some v) m (insert k v m)
  insert-Updates k v m j = lookup-insert k j v m

  pub insert_at-Updates :
      (k k' : K) (v : V) (m : Dict K V) → k' ≡ k → Updates k (some v) m (insert k' v m)
  insert_at-Updates k k' v m same j = ground (arith, lookup-insert k' j v m)

  pub erase-Updates : (k : K) (m : Dict K V) → Updates k none m (erase k m)
  erase-Updates k m j = lookup-erase k j m

  -- The later of two writes counts.
  pub Updates-trans :
      (k : K) (v w : Option V) (m m' m'' : Dict K V)
      → Updates k v m m'
      → Updates k w m' m''
      → Updates k w m m''
  Updates-trans k v w m m' m'' h h' j = ground (arith, h j, h' j)

  module _ (k j : K) (v : Option V) (m m' : Dict K V) (h : Updates k v m m') where
    pub update_self : lookup k m' ≡ v
    update_self = ground (arith, h k)

    pub update_other : k ≢ j → lookup j m' ≡ lookup j m
    update_other ne = ground (arith, h j)

    pub update_cases :
        (x : V)
        → lookup j m' ≡ some x
        → ((k ≡ j) × (v ≡ some x)) ⊎ ((k ≢ j) × (lookup j m ≡ some x))
    update_cases x e = elim (e'.dec k j) [
      | yes same ↦ inl (same, ground (arith, h j))
      | no other ↦ inr (other, ground (arith, h j))
    ]

module _ {K V : Type 0} ⦃e' : Eq K⦄ where
  -- No key stands twice: so it is in a Go map.
  abbrev pub UniqueKeys : Dict K V → Type 0
  UniqueKeys [] = Unit {0}
  UniqueKeys ((k, v) ∷ m) = (lookup k m ≡ none) × UniqueKeys m

  pub insert-UniqueKeys : (k : K) (v : V) (m : Dict K V) → UniqueKeys m → UniqueKeys (insert k v m)
  unfolding insert
  insert-UniqueKeys k v [] u = (lookup-nil k, tt)
  insert-UniqueKeys k v ((j, w) ∷ m) u =
      ground (arith, insert-UniqueKeys k v m u.1, lookup-insert k j v m)

  pub erase-UniqueKeys : (k : K) (m : Dict K V) → UniqueKeys m → UniqueKeys (erase k m)
  unfolding erase
  erase-UniqueKeys k [] u = tt
  erase-UniqueKeys k ((j, w) ∷ m) u = ground (arith, erase-UniqueKeys k m u.1, lookup-erase k j m)

  pub insert_self : (k : K) (v : V) (m : Dict K V) → lookup k (insert k v m) ≡ some v
  insert_self k v m = ground (arith, lookup-insert k k v m)

  pub erase_self : (k : K) (m : Dict K V) → lookup k (erase k m) ≡ none
  erase_self k m = ground (arith, lookup-erase k k m)
