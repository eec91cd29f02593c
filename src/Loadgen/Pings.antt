-- ===== src/Loadgen/Pings.antt =====
-- What the session of the load generator measures.
use talk_go.Prelude.{
  All, All-append, Bool, Bool-cases, List, [], arith, false, if◌then◌else◌, inl, inr, length, ltb,
  nat_eq, refl, some, subst, sym, text_eq, true, txt, ℕ, ◌*◌, ◌+◌, ◌-◌, ◌/◌, ◌<◌, ◌==◌, ◌∷◌, ◌≡◌,
  ◌≤◌,
}
use talk_go.Loadgen.{
  new_report, Report, Pinging, start, Beat, pings, fails, pongs, beat, beats, in_ms, percentile,
  stats_of, compute_stats, compute_status, report_of,
}
use talk_go.Loadgen.Sort.{quick_sort}
use talk_go.Loadgen.Ascending.{All-SameCounts}
use talk_go.Loadgen.QuickSort.{Picks, quick_sort-Ascending}
use talk_go.Loadgen.Stats.{in_ms_mono, All-index, percentile_found}

-- Each pong comes at most `gap` after the latest ping, whichever ping it answers, and all pings can
-- be written.
abbrev pub Prompt : ℕ → ℕ → List Beat → Type 0
Prompt gap latest [] = Unit {0}
Prompt gap latest (pings now ∷ bs) = Prompt gap now bs
Prompt gap latest (pongs now ∷ bs) = (now ≤ latest + gap) × Prompt gap latest bs
Prompt gap latest (fails now e ∷ bs) = ⊥

record Quiet (gap latest : ℕ) (p : Pinging) : Type 0 where
  goes_on : p.running ≡ true
  latest_ping : p.last_send ≡ some latest
  short : All (λ v. v ≤ gap) p.rtts
  sent : 0 < p.total_sent

pong-Quiet :
    (gap latest now : ℕ) (p : Pinging)
    → now ≤ latest + gap
    → Quiet gap latest p
    → Quiet gap latest (beat p (pongs now))
unfolding beat
pong-Quiet gap latest now p h q =
    rw (q.latest_ping, beat)
      (record {
        goes_on = q.goes_on;
        latest_ping = q.latest_ping;
        short = All-append (λ v. v ≤ gap) p.rtts ((now - latest) ∷ []) q.short (omega arith, tt);
        sent = q.sent;
      })

ping-Quiet :
    (gap latest now : ℕ) (p : Pinging) → Quiet gap latest p → Quiet gap now (beat p (pings now))
unfolding beat
ping-Quiet gap latest now p q =
    rw (q.goes_on, beat)
      (record { goes_on = refl; latest_ping = refl; short = q.short; sent = omega arith })

-- What `report_of` needs of the pings.
beats-short :
    (gap latest : ℕ) (p : Pinging) (bs : List Beat)
    → Prompt gap latest bs
    → Quiet gap latest p
    → (let p' = beats p bs in All (λ v. v ≤ gap) p'.rtts × 0 < p'.total_sent)
unfolding beats
beats-short gap latest p [] h q = (q.short, q.sent)
beats-short gap latest p (pings now ∷ bs) h q =
    beats-short gap now (beat p (pings now)) bs h (ping-Quiet gap latest now p q)
beats-short gap latest p (pongs now ∷ bs) h q =
    beats-short gap latest (beat p (pongs now)) bs h.1 (pong-Quiet gap latest now p h.0 q)
beats-short gap latest p (fails now e ∷ bs) h q = absurd h

percentile_short :
    (sorted : List ℕ) (gap : ℕ) → All (λ v. v ≤ gap) sorted → percentile sorted 90 ≤ gap
unfolding percentile
percentile_short [] gap h = omega arith
percentile_short (v ∷ vs) gap h =
    let most : 90 * length vs / 100 ≤ length vs = omega arith in
    subst (λ n. n ≤ gap) (sym (percentile_found v vs 90 most))
      (All-index (λ w. w ≤ gap) (v ∷ vs) (90 * length vs / 100) h (omega arith))

p90_short :
    (pick : List Bool → ℕ → ℕ) (r : Report) (gap : ℕ)
    → Picks pick
    → All (λ v. v ≤ gap) r.all_rtt
    → r.p90_rtt_ms ≤ in_ms gap
    → (compute_stats pick r).p90_rtt_ms ≤ in_ms gap
unfolding compute_stats stats_of
p90_short pick r gap picks short before = elim (Bool-cases (length r.all_rtt == 0)) [
  | inl empty ↦ rw empty before
  | inr full ↦
      let sorted = quick_sort (length r.all_rtt) pick [] r.all_rtt in
      let same =
        (quick_sort-Ascending pick (length r.all_rtt) [] r.all_rtt picks (omega arith)).1 in
      let quick =
        percentile_short sorted gap (All-SameCounts (λ v. v ≤ gap) sorted r.all_rtt same short) in
      rw full (in_ms_mono (percentile sorted 90) gap quick)
]

ltb_no : (a b : ℕ) → b ≤ a → ltb a b ≡ false
ltb_no a b h = ground arith

compute_status-ok :
    (r : Report)
    → 0 < r.total_messages
    → r.error_rate_pct ≡ 0
    → r.p90_rtt_ms ≤ 1500
    → (compute_status r).status ≡ txt "ok"
unfolding compute_status
compute_status-ok r sent no_rate fast =
    let some_sent : (r.total_messages == 0) ≡ false = ground arith in
    rw
      (
        some_sent,
        ltb_no 15 r.error_rate_pct (omega arith),
        ltb_no 5 r.error_rate_pct (omega arith),
        ltb_no 2500 r.p90_rtt_ms (omega arith),
        ltb_no 1500 r.p90_rtt_ms fast,
      )
      refl

compute_stats-rest :
    (pick : List Bool → ℕ → ℕ) (r : Report)
    → ((compute_stats pick r).total_messages ≡ r.total_messages)
      × ((compute_stats pick r).error_rate_pct ≡ r.error_rate_pct)
unfolding compute_stats stats_of
compute_stats-rest pick r = ground arith

-- A session in which every ping can be written, and each pong comes at most a second and a half
-- after the latest ping, is reported as "ok": the error rate is never set, and a pong is measured
-- against the latest ping. Pings go out every 20 ms, so that this is so however long the answers
-- take, and also if none comes.
pub report_of-ok :
    (pick : List Bool → ℕ → ℕ) (first : ℕ) (bs : List Beat)
    → Picks pick
    → Prompt 1500000000 first bs
    → (report_of pick (pings first ∷ bs)).status ≡ txt "ok"
unfolding report_of beats beat
report_of-ok pick first bs picks prompt =
    let p₀ = beat start (pings first) in
    let quiet : Quiet 1500000000 first p₀ = record {
      goes_on = refl;
      latest_ping = refl;
      short = tt;
      sent = omega arith;
    } in
    let p = beats p₀ bs in
    let (short, sent) = beats-short 1500000000 first p₀ bs prompt quiet in
    let r : Report = record new_report {
      all_rtt = p.rtts;
      total_messages = p.total_sent;
      errors = p.write_errors;
      packet_loss_pct =
          if ltb 0 p.total_sent
          then (100 * (p.total_sent - p.pong_count), p.total_sent)
          else (100, 1);
    } in
    let (same_total, same_rate) = compute_stats-rest pick r in
    compute_status-ok (compute_stats pick r) (omega (arith, same_total, sent)) same_rate
      (p90_short pick r 1500000000 picks short (omega arith))
