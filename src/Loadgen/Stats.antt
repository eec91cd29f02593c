-- ===== src/Loadgen/Stats.antt =====
-- The statistics of a report.
use talk_go.Prelude.{
  All, Bool, Bool-cases, List, [], arith, false, inl, inr, leb, length, nat_eq, refl, suc, sym,
  text_eq, zero, ℕ, ◌*◌, ◌-◌, ◌/◌, ◌<◌, ◌==◌, ◌∷◌, ◌≡◌, ◌≢◌, ◌≤◌,
}
use talk_go.Loadgen.{Report, in_ms, percentile, stats_of, compute_stats}
use talk_go.Loadgen.Sort.{at, quick_sort}
use talk_go.Loadgen.Ascending.{Ascending, All-SameCounts, All-at}
use talk_go.Loadgen.Partition.{count, SameCounts}
use talk_go.Loadgen.QuickSort.{Picks, quick_sort-Ascending}

pub All-index : (P : ℕ → Type 0) (a : List ℕ) (k : ℕ) → All P a → k < length a → P (at a k)
All-index P [] k h l = absurd (omega arith)
All-index P (x ∷ a) zero h l = h.0
All-index P (x ∷ a) (suc k) h l = All-index P a k h.1 (omega arith)

at-Ascending : (a : List ℕ) (j k : ℕ) → Ascending a → j ≤ k → k < length a → at a j ≤ at a k
at-Ascending [] j k s h l = absurd (omega arith)
at-Ascending (x ∷ a) zero zero s h l = omega arith
at-Ascending (x ∷ a) zero (suc k) s h l = All-index (λ y. x ≤ y) a k s.0 (omega arith)
at-Ascending (x ∷ a) (suc j) zero s h l = absurd (omega arith)
at-Ascending (x ∷ a) (suc j) (suc k) s h l = at-Ascending a j k s.1 (omega arith) (omega arith)

pub in_ms_mono : (v w : ℕ) → v ≤ w → in_ms v ≤ in_ms w
in_ms_mono v w h = omega arith

pub percentile_found :
    (v : ℕ) (vs : List ℕ) (p : ℕ)
    → p * length vs / 100 ≤ length vs
    → percentile (v ∷ vs) p ≡ at (v ∷ vs) (p * length vs / 100)
unfolding percentile
percentile_found v vs p h =
    let one_less : suc (length vs) - 1 ≡ length vs = omega arith in
    rw one_less (elim (Bool-cases (leb (suc (length vs)) (p * length vs / 100))) [
      | inl beyond ↦ absurd (ground arith)
      | inr within ↦ rw within refl
    ])

-- The statistics that a report has, for the measurements in ascending order.
abbrev pub Ordered : List ℕ → Report → Type 0
Ordered rtts r =
    All (λ v. (r.min_rtt_ms ≤ in_ms v) × (in_ms v ≤ r.max_rtt_ms)) rtts
    × r.min_rtt_ms ≤ r.p50_rtt_ms
    × r.p50_rtt_ms ≤ r.p90_rtt_ms
    × r.p90_rtt_ms ≤ r.max_rtt_ms

stats_of-Ordered :
    (rtts : List ℕ) (v : ℕ) (vs : List ℕ) (r : Report)
    → Ascending (v ∷ vs)
    → SameCounts (v ∷ vs) rtts
    → Ordered rtts (stats_of (v ∷ vs) r)
unfolding stats_of
stats_of-Ordered rtts v vs r s same =
    let n = length vs in
    let half : 50 * n / 100 ≤ n = omega arith in
    let most : 90 * n / 100 ≤ n = omega arith in
    let ends : suc n - 1 ≡ n = omega arith in
    let p50 = percentile_found v vs 50 half in
    let p90 = percentile_found v vs 90 most in
    let each : All (λ w. (in_ms (at (v ∷ vs) 0) ≤ in_ms w) × (in_ms w ≤ in_ms (at (v ∷ vs) n)))
        (v ∷ vs) =
      All-at _ (v ∷ vs) (λ k l. (
        in_ms_mono _ _ (at-Ascending (v ∷ vs) 0 k s (omega arith) l),
        in_ms_mono _ _ (at-Ascending (v ∷ vs) k n s (omega arith) (omega arith)),
      )) in
    rw (ends, p50, p90)
      (
        All-SameCounts _ rtts (v ∷ vs) (λ w. sym (same w)) each,
        in_ms_mono _ _ (at-Ascending (v ∷ vs) 0 (50 * n / 100) s (omega arith) (omega arith)),
        in_ms_mono _ _
            (at-Ascending (v ∷ vs) (50 * n / 100) (90 * n / 100) s (omega arith) (omega arith)),
        in_ms_mono _ _ (at-Ascending (v ∷ vs) (90 * n / 100) n s most (omega arith)),
      )

sorted-Ordered :
    (rtts sorted : List ℕ) (r : Report)
    → rtts ≢ []
    → Ascending sorted
    → SameCounts sorted rtts
    → Ordered rtts (stats_of sorted r)
sorted-Ordered [] [] r measured s same = absurd (measured refl)
sorted-Ordered (x ∷ rtts) [] r measured s same =
    let none_counted : 0 ≡ count x (x ∷ rtts) = same x in absurd (ground arith)
sorted-Ordered rtts (v ∷ vs) r measured s same = stats_of-Ordered rtts v vs r s same

pub nonempty_test : (a : List ℕ) → a ≢ [] → (length a == 0) ≡ false
nonempty_test [] ne = absurd (ne refl)
nonempty_test (x ∷ a) ne = ground arith

-- The minimum, the median, the 90th percentile and the maximum that a report tells are in this
-- order, and every measurement lies between the first and the last, in whole milliseconds, whatever
-- indices `rand.Intn` picks for the sort.
pub compute_stats-Ordered :
    (pick : List Bool → ℕ → ℕ) (r : Report)
    → Picks pick
    → r.all_rtt ≢ []
    → Ordered r.all_rtt (compute_stats pick r)
unfolding compute_stats
compute_stats-Ordered pick r picks measured =
    let sorted = quick_sort (length r.all_rtt) pick [] r.all_rtt in
    let (ascends, same) =
      quick_sort-Ascending pick (length r.all_rtt) [] r.all_rtt picks (omega arith) in
    rw (nonempty_test r.all_rtt measured) (sorted-Ordered r.all_rtt sorted r measured ascends same)
