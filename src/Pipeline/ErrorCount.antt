-- ===== src/Pipeline/ErrorCount.antt =====
-- The error count of a session. `logSessionError` looks the session up under the lock of the service,
-- and increments the count after the lock is released: a load, and later a store.
use talk_go.Prelude.{
  All, All-append, All-imp, List, Option, [], arith, drop, get_elem?, nat_eq, none, refl, some,
  some_inj, subst, suc, take, text_eq, zero, ℕ, ◌++◌, ◌+◌, ◌∷◌, ◌≡◌, ◌≤◌,
}

-- `loaded` are the calls that have loaded the count and not stored it yet.
pub record ErrorCount : Type 0 where
  pub count : ℕ
  pub loaded : List ℕ

-- A call loads the count; the n-th of those that have loaded stores it.
pub data Event : Type 0 where
  loads : Event
  stores : ℕ → Event

abbrev pub count_from : ℕ → ErrorCount
count_from n = record { count = n; loaded = [] }

unfoldable pub store : ErrorCount → ℕ → Option ℕ → ErrorCount
store e n none = e
store e n (some v) = record { count = v + 1; loaded = take n e.loaded ++ drop (n + 1) e.loaded }

unfoldable pub step : ErrorCount → Event → ErrorCount
step e loads = record e { loaded = e.loaded ++ e.count ∷ [] }
step e (stores n) = store e n (get_elem? e.loaded n)

unfoldable pub run : ErrorCount → List Event → ErrorCount
run e [] = e
run e (x ∷ xs) = run (step e x) xs

abbrev pub counted : Option ℕ → ℕ
counted none = 0
counted (some v) = 1

-- How many errors are counted in a run: the stores of calls that have loaded.
unfoldable pub stored : ErrorCount → List Event → ℕ
stored e [] = 0
stored e (loads ∷ xs) = stored (step e loads) xs
stored e (stores n ∷ xs) = counted (get_elem? e.loaded n) + stored (step e (stores n)) xs

-- Every count that has been loaded is from `lo` to `hi`; the count itself is at least `mark`.
abbrev Within : ℕ → ℕ → ℕ → Type 0
Within lo hi v = (lo ≤ v) × (v ≤ hi)

record Bounded (lo mark hi : ℕ) (e : ErrorCount) : Type 0 where
  past : mark ≤ e.count
  now : Within lo hi e.count
  held : All (Within lo hi) e.loaded

All-take : (P : ℕ → Type 0) (n : ℕ) (xs : List ℕ) → All P xs → All P (take n xs)
All-take P zero xs h = tt
All-take P (suc n) [] h = tt
All-take P (suc n) (x ∷ xs) h = (h.0, All-take P n xs h.1)

All-drop : (P : ℕ → Type 0) (n : ℕ) (xs : List ℕ) → All P xs → All P (drop n xs)
All-drop P zero xs h = h
All-drop P (suc n) [] h = tt
All-drop P (suc n) (x ∷ xs) h = All-drop P n xs h.1

All-get_elem? :
    (P : ℕ → Type 0) (n : ℕ) (xs : List ℕ) (v : ℕ) → All P xs → get_elem? xs n ≡ some v → P v
All-get_elem? P n [] v h at = absurd (ground arith)
All-get_elem? P zero (x ∷ xs) v h at = subst P (some_inj at) h.0
All-get_elem? P (suc n) (x ∷ xs) v h at = All-get_elem? P n xs v h.1 at

loads-Bounded :
    (lo mark hi : ℕ) (e : ErrorCount) → Bounded lo mark hi e → Bounded lo mark hi (step e loads)
unfolding step
loads-Bounded lo mark hi e b = record {
  past = b.past;
  now = b.now;
  held = All-append (Within lo hi) e.loaded (e.count ∷ []) b.held (b.now, tt);
}

-- What the count is at least after a store.
abbrev mark_after : ℕ → ℕ → Option ℕ → ℕ
mark_after lo mark none = mark
mark_after lo mark (some v) = lo + 1

store-Bounded :
    (lo mark hi n : ℕ) (e : ErrorCount) (o : Option ℕ)
    → get_elem? e.loaded n ≡ o
    → Bounded lo mark hi e
    → Bounded lo (mark_after lo mark o) (hi + counted o) (store e n o)
unfolding store
store-Bounded lo mark hi n e none at b = subst (λ h. Bounded lo mark h e) (omega arith) b
store-Bounded lo mark hi n e (some v) at b =
    let (low, high) = All-get_elem? (Within lo hi) n e.loaded v b.held at in
    let wider =
      All-imp (Within lo hi) (Within lo (hi + 1)) e.loaded (λ x w. (w.0, omega (arith, w.1)))
        b.held in
    record {
      past = omega (arith, low);
      now = (omega (arith, low), omega (arith, high));
      held =
          All-append (Within lo (hi + 1)) (take n e.loaded) (drop (n + 1) e.loaded)
            (All-take (Within lo (hi + 1)) n e.loaded wider)
            (All-drop (Within lo (hi + 1)) (n + 1) e.loaded wider);
    }

mark_after_le : (lo mark : ℕ) (o : Option ℕ) → mark ≤ lo + 1 → mark_after lo mark o ≤ lo + 1
mark_after_le lo mark none h = h
mark_after_le lo mark (some v) h = omega arith

mark_after_ge :
    (lo mark : ℕ) (o : Option ℕ)
    → mark ≤ lo + 1
    → (mark ≤ mark_after lo mark o) × (1 ≤ counted o → lo + 1 ≤ mark_after lo mark o)
mark_after_ge lo mark none h = (omega arith, λ k. absurd (omega (arith, k)))
mark_after_ge lo mark (some v) h = (omega (arith, h), λ k. omega arith)

run-Bounded :
    (lo mark hi : ℕ) (e : ErrorCount) (xs : List Event)
    → mark ≤ lo + 1
    → Bounded lo mark hi e
    → ((run e xs).count ≤ hi + stored e xs)
      × (mark ≤ (run e xs).count)
      × (1 ≤ stored e xs → lo + 1 ≤ (run e xs).count)
unfolding run stored
run-Bounded lo mark hi e [] few b = (omega (arith, b.now.1), b.past, λ h. absurd (omega (arith, h)))
run-Bounded lo mark hi e (loads ∷ xs) few b =
    run-Bounded lo mark hi (step e loads) xs few (loads-Bounded lo mark hi e b)
run-Bounded lo mark hi e (stores n ∷ xs) few b =
    let o = get_elem? e.loaded n in
    let b' : Bounded lo (mark_after lo mark o) (hi + counted o) (step e (stores n)) =
      unfold step in store-Bounded lo mark hi n e o refl b in
    let (high, low, more) =
      run-Bounded lo (mark_after lo mark o) (hi + counted o) (step e (stores n)) xs
        (mark_after_le lo mark o few) b' in
    let (grows, jumps) = mark_after_ge lo mark o few in
    (
      omega (arith, high),
      omega (arith, low, grows),
      λ some_stored. ground (arith, low, more, jumps, some_stored),
    )

-- In any interleaving of the calls, errors are lost at worst down to one: a count of `n` is, after the
-- stores of a run, at most `n` and their number, and at least `n + 1` if there is one.
pub error_count_bounds :
    (n : ℕ) (xs : List Event)
    → let e = count_from n in
      ((run e xs).count ≤ n + stored e xs) × (1 ≤ stored e xs → n + 1 ≤ (run e xs).count)
error_count_bounds n xs =
    let b : Bounded n n n (count_from n) = record {
      past = omega arith;
      now = (omega arith, omega arith);
      held = tt;
    } in
    let (high, low, more) = run-Bounded n n n (count_from n) xs (omega arith) b in (high, more)
