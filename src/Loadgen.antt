-- ===== src/Loadgen.antt =====
-- cmd/loadgen: the report of the load generator (report.go), its session (session.go) and the exit
-- code of its command (main.go). A measurement is a natural number of nanoseconds, for the source's
-- floating-point milliseconds; an average or a share is a numerator with its denominator.
pub mod Sort
mod Scan
pub mod Partition
mod Loop
pub mod Ascending
pub mod QuickSort
pub mod Stats
pub mod Pings
pub mod Creation
use talk_go.Prelude.{
  Bool, List, Option, Text, [], below, false, if◌then◌else◌, inl, inr, leb, length, ltb, nat_eq,
  none, not, ok, some, text_eq, true, txt, ℕ, ℤ, ◌&&◌, ◌*◌, ◌++◌, ◌+◌, ◌-◌, ◌/◌, ◌==◌, ◌||◌, ◌∷◌,
  ◌⊎◌,
}
use talk_go.Loadgen.Sort.{at, quick_sort}

pub record Report : Type 0 where
  pub total_messages : ℕ
  pub avg_rtt : ℕ × ℕ
  pub min_rtt_ms : ℕ
  pub max_rtt_ms : ℕ
  pub p50_rtt_ms : ℕ
  pub p90_rtt_ms : ℕ
  pub packet_loss_pct : ℕ × ℕ
  pub status : Text
  pub errors : List Text
  pub error_rate_pct : ℕ
  pub all_rtt : List ℕ

abbrev pub new_report : Report
new_report = record {
  total_messages = 0;
  avg_rtt = (0, 1);
  min_rtt_ms = 0;
  max_rtt_ms = 0;
  p50_rtt_ms = 0;
  p90_rtt_ms = 0;
  packet_loss_pct = (0, 1);
  status = [];
  errors = [];
  error_rate_pct = 0;
  all_rtt = [];
}

-- `int64(v)`
abbrev pub in_ms : ℕ → ℕ
in_ms v = v / 1000000

abbrev pub sum : List ℕ → ℕ
sum [] = 0
sum (v ∷ vs) = v + sum vs

-- The index is never negative.
unfoldable pub percentile : List ℕ → ℕ → ℕ
percentile [] p = 0
percentile (v ∷ vs) p =
    let n = length (v ∷ vs) in
    let idx = p * (n - 1) / 100 in at (v ∷ vs) (if leb n idx then n - 1 else idx)

unfoldable pub stats_of : List ℕ → Report → Report
stats_of sorted r =
    let n = length sorted in
    record r {
      min_rtt_ms = in_ms (at sorted 0);
      max_rtt_ms = in_ms (at sorted (n - 1));
      avg_rtt = (sum sorted, n);
      p50_rtt_ms = in_ms (percentile sorted 50);
      p90_rtt_ms = in_ms (percentile sorted 90);
    }

unfoldable pub compute_stats : (List Bool → ℕ → ℕ) → Report → Report
compute_stats pick r =
    if length r.all_rtt == 0
    then r
    else stats_of (quick_sort (length r.all_rtt) pick [] r.all_rtt) r

unfoldable pub compute_status : Report → Report
compute_status r =
    if r.total_messages == 0 && not (length r.errors == 0)
    then record r { status = txt "failed" }
    else if r.total_messages == 0
    then record r { status = txt "failed" }
    else if ltb 15 r.error_rate_pct || ltb 2500 r.p90_rtt_ms
    then record r { status = txt "failed" }
    else if ltb 5 r.error_rate_pct || ltb 1500 r.p90_rtt_ms
    then record r { status = txt "degraded" }
    else record r { status = txt "ok" }

-- What the ping loop and the pong handler share. `running` is whether the loop still runs.
pub record Pinging : Type 0 where
  pub running : Bool
  pub last_send : Option ℕ
  pub rtts : List ℕ
  pub pong_count : ℕ
  pub total_sent : ℕ
  pub write_errors : List Text

abbrev pub start : Pinging
start = record {
  running = true;
  last_send = none;
  rtts = [];
  pong_count = 0;
  total_sent = 0;
  write_errors = [];
}

-- A ping that is sent at a time, one that cannot be written, and a pong that comes.
pub data Beat : Type 0 where
  pings : ℕ → Beat
  fails : ℕ → Text → Beat
  pongs : ℕ → Beat

unfoldable pub beat : Pinging → Beat → Pinging
beat p (pings now) =
    if p.running then record p { last_send = some now; total_sent = p.total_sent + 1 } else p
beat p (fails now e) =
    if p.running
    then record p { running = false; last_send = some now; write_errors = p.write_errors ++ e ∷ [] }
    else p
beat p (pongs now) = elim p.last_send [
  | none ↦ record p { pong_count = p.pong_count + 1 }
  | some sent_at ↦ record p { rtts = p.rtts ++ (now - sent_at) ∷ []; pong_count = p.pong_count + 1 }
]

unfoldable pub beats : Pinging → List Beat → Pinging
beats p [] = p
beats p (b ∷ bs) = beats (beat p b) bs

-- The report of a session whose handshake has succeeded.
unfoldable pub report_of : (List Bool → ℕ → ℕ) → List Beat → Report
report_of pick bs =
    let p = beats start bs in
    compute_status (
      compute_stats pick (record new_report {
        all_rtt = p.rtts;
        total_messages = p.total_sent;
        errors = p.write_errors;
        packet_loss_pct =
            if ltb 0 p.total_sent
            then (100 * (p.total_sent - p.pong_count), p.total_sent)
            else (100, 1);
      }))

-- What the server answers to the join message: an error of the connection, or the type, the session
-- and the message.
abbrev pub Joined : Type 0
Joined = Text ⊎ (Text × Text × Text)

-- `runSession`: the report, and the error. The first error is that of the dial or of the first write.
-- The offer and the leave message are left out, since their outcome is ignored.
unfoldable pub run_session :
    (List Bool → ℕ → ℕ) → Option Text → Joined → List Beat → Report × Option Text
run_session pick (some e) answer bs = (new_report, some e)
run_session pick none (inl e) bs = (new_report, some e)
run_session pick none (inr (kind, session_id, message)) bs =
    if kind == txt "error"
    then (new_report, some (txt "join rejected: " ++ message))
    else if not (kind == txt "joined") || session_id == []
    then (
      new_report,
      some (txt "unexpected join response: type=" ++ kind ++ txt " sessionID=" ++ session_id),
    )
    else (report_of pick bs, none)

-- `run`: the exit code. `created` is what `createRoom` answers if no room is given.
unfoldable pub exit_code : ℤ → Text → Text ⊎ Text → (Text → Report × Option Text) → Bool → ℕ
exit_code duration room created session written =
    if not (below 0 duration) then 1 else elim (if room == [] then created else inr room) [
      | inl e ↦ 1
      | inr rid ↦
          let (report, failed) = session rid in
          let report' : Report = (elim failed [
            | none ↦ report
            | some e ↦ record report { errors = report.errors ++ e ∷ [] }
          ]) in
          if not written then 1 else if report'.status == txt "failed" then 1 else 0
    ]
