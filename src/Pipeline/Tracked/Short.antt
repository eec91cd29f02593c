-- ===== src/Pipeline/Tracked/Short.antt =====
-- The stages that a half's logs can hold.
use talk_go.Prelude.{
  All, All-append, List, Option-cases, Text, [], arith, false, if_elim, inl, inr, length,
  length-append, length-map, ltb, nat_eq, none, refl, some, subst, text_eq, txt, ℕ, ◌+◌, ◌/◌, ◌∷◌,
  ◌≡◌, ◌≤◌,
}
use talk_go.Latency.{
  LatencyTracker, reset, start_stage, end_stage, emit, Emitted, silent, crashed, logged,
  StageTiming, close_last, max_stages, stage_ms_key, millisecond,
}
use talk_go.Pipeline.Tracked.{
  Call, FrameStep, Tracked, Event, tracked, go_on_frame, go_on_half, step, run, starts, ends,
  resets, starts_capture, ends_capture, frame_goes_on, half_goes_on, emits,
}

-- How many stages the tracker holds.
abbrev held : LatencyTracker → ℕ
held lt = elim lt.current [ none ↦ 0 | some cl ↦ length cl.stage_timings ]

-- How many stages the calls start.
abbrev started : List Call → ℕ
started [] = 0
started (starts stage ∷ calls) = 1 + started calls
started (ends stage ∷ calls) = started calls

-- Whether the capture of the last frame may be among the stages.
abbrev captured : FrameStep → ℕ
captured resets = 1
captured starts_capture = 0
captured ends_capture = 1

abbrev pub IsShort : Emitted → Type 0
IsShort silent = Unit {0}
IsShort crashed = ⊥
IsShort (logged l) = length l.stages ≤ 5

record Few (t : Tracked) : Type 0 where
  left : started t.rest ≤ 4
  enough : held t.tracker + started t.rest ≤ 4 + captured t.frame
  short : All IsShort t.emitted

length-close_last :
    (stage : Text) (now : ℕ) (sts closed : List StageTiming)
    → close_last stage now sts ≡ some closed
    → length closed ≡ length sts
unfolding close_last
length-close_last stage now [] closed e = cc
length-close_last stage now (st ∷ sts) closed e = elim (Option-cases (close_last stage now sts)) [
  | inl none_open ↦ ground arith
  | inr (later, found) ↦ ground (arith, length-close_last stage now sts later found)
]

held-end_stage :
    (lt : LatencyTracker) (stage : Text) (now : ℕ) → held (end_stage lt stage now) ≡ held lt
unfolding end_stage
held-end_stage lt stage now = elim (Option-cases lt.current) [
  | inl idle ↦ ground arith
  | inr (cl, busy) ↦ elim (Option-cases (close_last stage now cl.stage_timings)) [
    | inl none_open ↦ ground arith
    | inr (closed, found) ↦
        ground (arith, length-close_last stage now cl.stage_timings closed found)
  ]
]

held-start_stage :
    (lt : LatencyTracker) (stage : Text) (now : ℕ) → held (start_stage lt stage now) ≤ held lt + 1
unfolding start_stage
held-start_stage lt stage now = elim (Option-cases lt.current) [
  | inl idle ↦ ground arith
  | inr (cl, busy) ↦ ground (
    arith,
    length-append cl.stage_timings
        (record { stage = stage; start_at = now; end_at = none; duration = 0 } ∷ []),
  )
]

emit-IsShort :
    (lt : LatencyTracker) (dir room_id status : Text)
    → held lt ≤ 5
    → IsShort (emit lt dir room_id status).0 × (held (emit lt dir room_id status).1 ≡ 0)
unfolding emit
emit-IsShort lt dir room_id status few = elim (Option-cases lt.current) [
  | inl idle ↦ rw (idle) (tt, refl)
  | inr (cl, busy) ↦
      let fits : length cl.stage_timings ≤ 5 =
        subst (λ c. elim c [ none ↦ 0 | some cl ↦ length cl.stage_timings ] ≤ 5) busy few in
      let room : ltb max_stages (length cl.stage_timings) ≡ false = ground arith in
      let logged_stage : StageTiming → Text × ℕ =
        λ st. (stage_ms_key st.stage, st.duration / millisecond) in
      rw (busy, room) (omega (arith, fits, length-map cl.stage_timings logged_stage), refl)
]

captured_le : (frame : FrameStep) → captured frame ≤ 1
captured_le resets = omega arith
captured_le starts_capture = omega arith
captured_le ends_capture = omega arith

go_on_frame-Few :
    (frame : FrameStep) (t : Tracked) (now : ℕ)
    → t.frame ≡ frame
    → Few t
    → Few (go_on_frame frame t now)
unfolding go_on_frame reset
go_on_frame-Few resets t now at f = record {
  left = f.left;
  enough = ground (arith, f.left);
  short = f.short;
}
go_on_frame-Few starts_capture t now at f = record {
  left = f.left;
  enough = omega (
    arith,
    held-start_stage t.tracker (txt "capture") now,
    subst (λ frame. held t.tracker + started t.rest ≤ 4 + captured frame) at f.enough,
  );
  short = f.short;
}
go_on_frame-Few ends_capture t now at f = record {
  left = f.left;
  enough = omega (
    arith,
    held-end_stage t.tracker (txt "capture") now,
    subst (λ frame. held t.tracker + started t.rest ≤ 4 + captured frame) at f.enough,
  );
  short = f.short;
}

go_on_half-Few :
    (calls : List Call) (t : Tracked) (now : ℕ)
    → t.rest ≡ calls
    → Few t
    → Few (go_on_half calls t now)
unfolding go_on_half
go_on_half-Few [] t now at f = f
go_on_half-Few (starts stage ∷ calls) t now at f =
    let left : started (starts stage ∷ calls) ≤ 4 = subst (λ rest. started rest ≤ 4) at f.left in
    let enough : held t.tracker + started (starts stage ∷ calls) ≤ 4 + captured t.frame =
      subst (λ rest. held t.tracker + started rest ≤ 4 + captured t.frame) at f.enough in
    record {
      left = omega (arith, left);
      enough = omega (arith, enough, held-start_stage t.tracker stage now);
      short = f.short;
    }
go_on_half-Few (ends stage ∷ calls) t now at f =
    let left : started (ends stage ∷ calls) ≤ 4 = subst (λ rest. started rest ≤ 4) at f.left in
    let enough : held t.tracker + started (ends stage ∷ calls) ≤ 4 + captured t.frame =
      subst (λ rest. held t.tracker + started rest ≤ 4 + captured t.frame) at f.enough in
    record {
      left = omega (arith, left);
      enough = omega (arith, enough, held-end_stage t.tracker stage now);
      short = f.short;
    }

step-Few : (t : Tracked) (e : Event) → Few t → Few (step t e)
unfolding step
step-Few t (frame_goes_on now) f = go_on_frame-Few t.frame t now refl f
step-Few t (half_goes_on now) f =
    if_elim Few t.over t (go_on_half t.rest t now) (λ stopped. f)
      (λ goes_on. go_on_half-Few t.rest t now refl f)
step-Few t (emits dir room_id status) f =
    let held_few : held t.tracker ≤ 5 = omega (arith, f.enough, captured_le t.frame) in
    let (short, empty) = emit-IsShort t.tracker dir room_id status held_few in
    if_elim Few t.over t _ (λ stopped. f)
      (λ goes_on. record {
        left = f.left;
        enough = omega (arith, f.left, empty);
        short = All-append IsShort t.emitted (_ ∷ []) f.short (short, tt);
      })

run-Few : (es : List Event) (t : Tracked) → Few t → Few (run t es)
unfolding run
run-Few [] t f = f
run-Few (e ∷ es) t f = run-Few es (step t e) (step-Few t e f)

-- However the frames of the callback and the steps of the half interleave, `Emit` never writes past
-- its array of five: whenever the half emits, the log has at most five stages.
pub run-IsShort : (es : List Event) → All IsShort (run tracked es).emitted
run-IsShort es =
    (run-Few es tracked (record { left = omega arith; enough = omega arith; short = tt })).short
