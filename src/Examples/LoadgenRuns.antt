-- ===== src/Examples/LoadgenRuns.antt =====
-- The load generator.
use talk_go.Prelude.{
  Bool, List, [], arith, inl, inr, list_dec, nat_eq, none, pos, refl, text_eq, true, txt, ℕ,
  ℕ_discrete, ◌-◌, ◌∷◌, ◌≡◌,
}
use talk_go.Loadgen.{
  Report, new_report, Beat, pings, pongs, compute_stats, report_of, run_session, exit_code,
  stats_of, percentile,
}
use talk_go.Loadgen.Sort.{quick_sort, swap, scan_up, scan_down, partition}
use talk_go.Loadgen.Ascending.{Ascending}
use talk_go.Loadgen.Partition.{SameCounts}
use talk_go.Loadgen.QuickSort.{Picks, quick_sort-Ascending}
use talk_go.Loadgen.Stats.{Ordered, compute_stats-Ordered}
use talk_go.Loadgen.Pings.{report_of-ok}

-- The last index is picked.
abbrev pick : List Bool → ℕ → ℕ
pick path n = n - 1

pick-Picks : Picks pick
pick-Picks path n h = omega arith

abbrev rtts : List ℕ
rtts = 450000000 ∷ 85000000 ∷ 200000000 ∷ 95000000 ∷ 130000000 ∷ 100000000 ∷ 115000000 ∷ []

abbrev report : Report
report = record new_report { all_rtt = rtts }

-- The example of the comment of `percentile`.
percentiles_run :
    ((compute_stats pick report).p50_rtt_ms ≡ 115) × ((compute_stats pick report).p90_rtt_ms ≡ 200)
unfolding compute_stats stats_of percentile quick_sort partition scan_up scan_down swap ℕ_discrete
percentiles_run = (refl, refl)

quick_sort-Ascending_example :
    Ascending (quick_sort 7 pick [] rtts) × SameCounts (quick_sort 7 pick [] rtts) rtts
quick_sort-Ascending_example = quick_sort-Ascending pick 7 [] rtts pick-Picks (omega arith)

-- Pings every 20 ms, whose answers take five seconds; the pings between the second and the last are
-- left out.
abbrev late : List Beat
late = pings 20000000 ∷ pings 4980000000 ∷ pongs 5000000000 ∷ pongs 5020000000 ∷ []

report_of-ok_example : (report_of pick (pings 0 ∷ late)).status ≡ txt "ok"
report_of-ok_example = report_of-ok pick 0 late pick-Picks (omega arith, (omega arith, tt))

-- A session that the server refuses ends with the code of success.
refused_run :
    exit_code
      (pos 30)
      (txt "r")
      (inl [])
      (λ rid. run_session pick none (inr (txt "error", [], [])) [])
      true
    ≡ 0
unfolding exit_code run_session text_eq list_dec ℕ_discrete
refused_run = refl

compute_stats-Ordered_example : Ordered rtts (compute_stats pick report)
compute_stats-Ordered_example = compute_stats-Ordered pick report pick-Picks (λ e. cc)
