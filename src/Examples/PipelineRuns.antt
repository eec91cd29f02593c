-- ===== src/Examples/PipelineRuns.antt =====
-- A half of a pipeline that fails to encode, and a slow translator.
use talk_go.Prelude.{
  All, List, [], nat_eq, none, port_error, refl, some, text_eq, txt, ◌++◌, ◌+◌, ◌∷◌, ◌≡◌, ◌≤◌,
}
use talk_go.Service.State.{Service, default_config}
use talk_go.Pipeline.{HalfPorts, PipelineHalf}
use talk_go.Pipeline.Frames.{Step, decodes, takes, channel, latest, listed, channel-latest}
use talk_go.Pipeline.ErrorCount as ErrorCount
use talk_go.Pipeline.ErrorCount.{count_from, error_count_bounds}
use talk_go.Pipeline.Tracked.{
  step, go_on_half, Event, emits, frame_goes_on, half_goes_on, run, tracked,
}
use talk_go.Pipeline.Tracked.Short.{IsShort, run-IsShort}
use talk_go.Pipeline.Tracked.Late.{late_frames}
use talk_go.Latency.{silent}

abbrev service : Service
service = record {
  config = default_config;
  repo = [];
  sessions = [];
  lookups = [];
  pipelines = [];
  grace_timers = [];
  starting = [];
  created = 0;
  drawn = 0;
  calls = [];
}

abbrev half : PipelineHalf
half = record {
  source_sess_id = txt "a";
  target_sess_id = txt "b";
  total_chunks = 0;
  error_chunks = 0;
}

abbrev half_ports : HalfPorts
half_ports = record {
  on_audio_track = none;
  decode = none;
  translate_stream = none;
  encode = some (port_error 1);
  send_audio = none;
  frames = 7;
}

abbrev slow : List Step
slow =
    decodes (txt "1")
    ∷ decodes (txt "2")
    ∷ takes
    ∷ takes
    ∷ decodes (txt "3")
    ∷ decodes (txt "4")
    ∷ []

channel-latest_example :
    channel (listed none) slow ≡ (listed (latest none slow).0, (latest none slow).1)
channel-latest_example = channel-latest none slow

abbrev set_up : List Event
set_up =
    half_goes_on 1
    ∷ half_goes_on 2
    ∷ half_goes_on 3
    ∷ half_goes_on 4
    ∷ half_goes_on 5
    ∷ half_goes_on 6
    ∷ half_goes_on 7
    ∷ half_goes_on 8
    ∷ emits (txt "AtoB") (txt "room") (txt "ok")
    ∷ []

abbrev frame : List Event
frame = frame_goes_on 9 ∷ frame_goes_on 10 ∷ frame_goes_on 11 ∷ []

run-IsShort_example : All IsShort (run tracked (frame ++ set_up)).emitted
run-IsShort_example = run-IsShort (frame ++ set_up)

late_frames_example : (run tracked (set_up ++ frame)).emitted ≡ silent ∷ []
unfolding run step go_on_half
late_frames_example =
    late_frames set_up frame (tt, (tt, (tt, (tt, (tt, (tt, (tt, (tt, (tt, tt))))))))) refl

-- Two calls load the count before either stores it: an error is lost.
abbrev racing : List ErrorCount.Event
racing = ErrorCount.loads ∷ ErrorCount.loads ∷ ErrorCount.stores 0 ∷ ErrorCount.stores 0 ∷ []

lost_error : (ErrorCount.run (count_from 3) racing).count ≡ 4
unfolding ErrorCount.run ErrorCount.step ErrorCount.store
lost_error = refl

error_count_bounds_example :
    ((ErrorCount.run (count_from 3) racing).count ≤ 3 + ErrorCount.stored (count_from 3) racing)
    × (1 ≤ ErrorCount.stored (count_from 3) racing
        → 3 + 1 ≤ (ErrorCount.run (count_from 3) racing).count)
error_count_bounds_example = error_count_bounds 3 racing
