-- ===== src/Pipeline/Tracked/Late.antt =====
-- A half that is done before the first frame.
use talk_go.Prelude.{
  All, List, Option-cases, Text, [], ap, arith, if_elim, if◌then◌else◌, inl, inr, length, ltb,
  nat_eq, none, refl, text_eq, true, ℕ, ◌++◌, ◌∙◌, ◌∷◌, ◌≡◌,
}
use talk_go.Latency.{LatencyTracker, start_stage, end_stage, emit, Emitted, silent, max_stages}
use talk_go.Pipeline.Tracked.{
  Call, FrameStep, Tracked, Event, tracked, go_on_frame, go_on_half, step, run, starts, ends,
  resets, starts_capture, ends_capture, frame_goes_on, half_goes_on, emits,
}

-- Before a frame, the tracker holds no chunk, and the half has emitted at most nothing.
record Untouched (t : Tracked) : Type 0 where
  idle : t.tracker.current ≡ none
  so_far : if t.over then t.emitted ≡ silent ∷ [] else t.emitted ≡ []

abbrev pub IsOfHalf : Event → Type 0
IsOfHalf (frame_goes_on now) = ⊥
IsOfHalf (half_goes_on now) = Unit {0}
IsOfHalf (emits dir room_id status) = Unit {0}

go_on_half-Untouched :
    (calls : List Call) (t : Tracked) (now : ℕ) → Untouched t → Untouched (go_on_half calls t now)
unfolding go_on_half start_stage end_stage
go_on_half-Untouched [] t now u = u
go_on_half-Untouched (starts stage ∷ calls) t now u = record {
  idle = ground (arith, u.idle);
  so_far = u.so_far;
}
go_on_half-Untouched (ends stage ∷ calls) t now u = record {
  idle = ground (arith, u.idle);
  so_far = u.so_far;
}

emit-silent :
    (lt : LatencyTracker) (dir room_id status : Text)
    → lt.current ≡ none
    → (emit lt dir room_id status).0 ≡ silent
unfolding emit
emit-silent lt dir room_id status idle = rw (idle) refl

emit-current :
    (lt : LatencyTracker) (dir room_id status : Text)
    → (emit lt dir room_id status).1.current ≡ none
unfolding emit
emit-current lt dir room_id status = elim (Option-cases lt.current) [
  | inl idle ↦ rw (idle) refl
  | inr (cl, busy) ↦ rw (busy) (
      if_elim (λ (r : Emitted × LatencyTracker). r.1.current ≡ none)
        (ltb max_stages (length cl.stage_timings)) _ _ (λ long. refl) (λ short. refl))
]

step-Untouched : (t : Tracked) (e : Event) → IsOfHalf e → Untouched t → Untouched (step t e)
unfolding step
step-Untouched t (frame_goes_on now) h u = elim h [ ]
step-Untouched t (half_goes_on now) h u =
    if_elim Untouched t.over t (go_on_half t.rest t now) (λ stopped. u)
      (λ goes_on. go_on_half-Untouched t.rest t now u)
step-Untouched t (emits dir room_id status) h u =
    if_elim Untouched t.over t _ (λ stopped. u)
      (λ goes_on. record {
        idle = emit-current t.tracker dir room_id status;
        so_far = ground (arith, emit-silent t.tracker dir room_id status u.idle, goes_on, u.so_far);
      })

run-Untouched :
    (es : List Event) (t : Tracked) → All IsOfHalf es → Untouched t → Untouched (run t es)
unfolding run
run-Untouched [] t h u = u
run-Untouched (e ∷ es) t h u = run-Untouched es (step t e) h.1 (step-Untouched t e h.0 u)

go_on_frame-emitted :
    (frame : FrameStep) (t : Tracked) (now : ℕ)
    → ((go_on_frame frame t now).over ≡ t.over) × ((go_on_frame frame t now).emitted ≡ t.emitted)
unfolding go_on_frame
go_on_frame-emitted resets t now = (refl, refl)
go_on_frame-emitted starts_capture t now = (refl, refl)
go_on_frame-emitted ends_capture t now = (refl, refl)

step-over :
    (t : Tracked) (e : Event)
    → t.over ≡ true
    → ((step t e).over ≡ true) × ((step t e).emitted ≡ t.emitted)
unfolding step
step-over t (frame_goes_on now) done =
    let (same_over, same) = go_on_frame-emitted t.frame t now in (same_over ∙ done, same)
step-over t (half_goes_on now) done = rw (done) (refl, refl)
step-over t (emits dir room_id status) done = rw (done) (refl, refl)

run-over : (es : List Event) (t : Tracked) → t.over ≡ true → (run t es).emitted ≡ t.emitted
unfolding run
run-over [] t done = refl
run-over (e ∷ es) t done =
    let (still, same) = step-over t e done in run-over es (step t e) still ∙ same

run-append : (es later : List Event) (t : Tracked) → run t (es ++ later) ≡ run (run t es) later
unfolding run
run-append [] later t = refl
run-append (e ∷ es) later t = run-append es later (step t e)

-- A half that emits before the first step of the callback logs nothing, whatever comes later: it
-- emits once, with no chunk.
pub late_frames :
    (es later : List Event)
    → All IsOfHalf es
    → (run tracked es).over ≡ true
    → (run tracked (es ++ later)).emitted ≡ silent ∷ []
late_frames es later h done =
    let u = run-Untouched es tracked h (record { idle = refl; so_far = refl }) in
    let only_silent : (run tracked es).emitted ≡ silent ∷ [] = ground (arith, u.so_far, done) in
    ap (λ t. t.emitted) (run-append es later tracked)
    ∙ run-over later (run tracked es) done
    ∙ only_silent
