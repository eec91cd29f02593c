-- ===== src/Pipeline/Tracked.antt =====
-- The tracker of a half: the callback of `OnAudioTrack` and `runHalf` call it from two goroutines.
-- The tracker locks itself in each of its methods, so each call is one step.
pub mod Short
pub mod Late
use talk_go.Prelude.{
  Bool, List, Text, [], false, if◌then◌else◌, nat_eq, text_eq, true, txt, ℕ, ◌++◌, ◌∷◌,
}
use talk_go.Latency.{
  LatencyTracker, new_latency_tracker, reset, start_stage, end_stage, emit, Emitted, silent,
  crashed, logged, StageTiming, close_last, max_stages, stage_ms_key, millisecond,
}

-- A call of `StartStage` or of `EndStage`.
pub data Call : Type 0 where
  starts ends : Text → Call

-- The calls of a half that goes well.
abbrev pub half_calls : List Call
half_calls =
    starts (txt "decode")
    ∷ ends (txt "decode")
    ∷ starts (txt "translate")
    ∷ ends (txt "translate")
    ∷ starts (txt "encode")
    ∷ ends (txt "encode")
    ∷ starts (txt "send")
    ∷ ends (txt "send")
    ∷ []

-- Where the callback is with a frame.
pub data FrameStep : Type 0 where
  resets starts_capture ends_capture : FrameStep

-- `rest` are the calls that the half has still to make; `over` that it has made its call of `Emit`.
pub record Tracked : Type 0 where
  pub tracker : LatencyTracker
  pub frame : FrameStep
  pub rest : List Call
  pub over : Bool
  pub emitted : List Emitted

-- The next step of the callback, the next of the half, or the half's `Emit`, with the direction, the
-- room and the status.
pub data Event : Type 0 where
  frame_goes_on half_goes_on : ℕ → Event
  emits : Text → Text → Text → Event

abbrev pub tracked : Tracked
tracked = record {
  tracker = new_latency_tracker;
  frame = resets;
  rest = half_calls;
  over = false;
  emitted = [];
}

unfoldable pub go_on_frame : FrameStep → Tracked → ℕ → Tracked
go_on_frame resets t now = record t { tracker = reset t.tracker; frame = starts_capture }
go_on_frame starts_capture t now = record t {
  tracker = start_stage t.tracker (txt "capture") now;
  frame = ends_capture;
}
go_on_frame ends_capture t now = record t {
  tracker = end_stage t.tracker (txt "capture") now;
  frame = resets;
}

unfoldable pub go_on_half : List Call → Tracked → ℕ → Tracked
go_on_half [] t now = t
go_on_half (starts stage ∷ calls) t now = record t {
  tracker = start_stage t.tracker stage now;
  rest = calls;
}
go_on_half (ends stage ∷ calls) t now = record t {
  tracker = end_stage t.tracker stage now;
  rest = calls;
}

unfoldable pub step : Tracked → Event → Tracked
step t (frame_goes_on now) = go_on_frame t.frame t now
step t (half_goes_on now) = if t.over then t else go_on_half t.rest t now
step t (emits dir room_id status) =
    if t.over
    then t
    else (let (log, tracker) = emit t.tracker dir room_id status in
        record t { tracker = tracker; over = true; emitted = t.emitted ++ log ∷ [] })

unfoldable pub run : Tracked → List Event → Tracked
run t [] = t
run t (e ∷ es) = run (step t e) es
