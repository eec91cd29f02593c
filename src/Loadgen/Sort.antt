-- ===== src/Loadgen/Sort.antt =====
-- `quickSort` of cmd/loadgen/report.go. A measurement is a natural number. The slices that it sorts
-- do not overlap, so that each is a list of its own.
use talk_go.Prelude.{
  Bool, List, [], drop, false, get_or, if◌then◌else◌, leb, length, ltb, nat_eq, suc, take, text_eq,
  true, zero, ℕ, ◌&&◌, ◌++◌, ◌-◌, ◌∷◌,
}

-- `a[i]`, for an index within the slice.
abbrev pub at : List ℕ → ℕ → ℕ
at a i = get_or a i 0

-- `a[i] = v`
abbrev pub set : List ℕ → ℕ → ℕ → List ℕ
set (old ∷ rest) zero v = v ∷ rest
set (old ∷ rest) (suc n) v = old ∷ set rest n v
set [] n v = []

-- `a[i], a[j] = a[j], a[i]`
unfoldable pub swap : List ℕ → ℕ → ℕ → List ℕ
swap a i j = set (set a i (at a j)) j (at a i)

-- `for i <= j && a[i] <= pivot { i++ }`
unfoldable pub scan_up : ℕ → List ℕ → ℕ → ℕ → ℕ → ℕ
scan_up zero a pivot i j = i
scan_up (suc fuel) a pivot i j = elim (leb i j && leb (at a i) pivot) [
  | true ↦ scan_up fuel a pivot (suc i) j
  | false ↦ i
]

-- `for i <= j && a[j] > pivot { j-- }`
unfoldable pub scan_down : ℕ → List ℕ → ℕ → ℕ → ℕ → ℕ
scan_down zero a pivot i j = j
scan_down (suc fuel) a pivot i j = elim (leb i j && ltb pivot (at a j)) [
  | true ↦ scan_down fuel a pivot i (j - 1)
  | false ↦ j
]

-- `for i <= j`: the slice and the last `j`. Each inner loop has a round for each index that is left.
unfoldable pub partition : ℕ → List ℕ → ℕ → ℕ → ℕ → List ℕ × ℕ
partition zero a pivot i j = (a, j)
partition (suc fuel) a pivot i j = elim (leb i j) [
  | false ↦ (a, j)
  | true ↦
      let i' = scan_up (suc j - i) a pivot i j in
      let j' = scan_down (suc j - i') a pivot i' j in
      partition fuel (if ltb i' j' then swap a i' j' else a) pivot i' j'
]

-- `pick path n` is what `rand.Intn(n)` gives in the call that is reached by `path`.
unfoldable pub quick_sort : ℕ → (List Bool → ℕ → ℕ) → List Bool → List ℕ → List ℕ
quick_sort zero pick path a = a
quick_sort (suc fuel) pick path a = elim (ltb (length a) 2) [
  | true ↦ a
  | false ↦
      let b = swap a 0 (pick path (length a)) in
      let (c, j) = partition (length b) b (at b 0) 1 (length b - 1) in
      let d = swap c 0 j in
      quick_sort fuel pick (false ∷ path) (take j d)
      ++ at d j ∷ quick_sort fuel pick (true ∷ path) (drop (suc j) d)
]
