-- ===== src/Pipeline.antt =====
-- internal/app/roomsvc/pipeline.go: the bounded channel before the translator, and one direction of
-- a pipeline, `runHalf`, up to the point at which it has handed its streams over. The stages' times
-- are in Latency.
pub mod Frames
pub mod Counts
pub mod Tracked
pub mod Flow
pub mod Heard
pub mod Speech
pub mod Whole
pub mod ErrorCount
use talk_go.Prelude.{
  Error, List, Option, Text, [], drop, if◌then◌else◌, length, ltb, nat_eq, none, ok, some, text_eq,
  txt, ℕ, ◌++◌, ◌+◌, ◌∷◌,
}
use talk_go.Prelude.Dict.{lookup, insert}
use talk_go.Session.{Session}
use talk_go.Service.State.{Service, PortCall, notify}

-- A channel is the list of what waits in it, the oldest first. Nothing else touches it between the
-- steps of the source.
unfoldable pub offer : ℕ → List Text → Text → Option (List Text)
offer capacity ch v = if ltb (length ch) capacity then some (ch ++ v ∷ []) else none

unfoldable pub drain_oldest : ℕ → List Text → Text → List Text
unfolding offer
drain_oldest capacity ch v = elim (offer capacity ch v) [
  | some sent ↦ sent
  | none ↦ elim (offer capacity (drop 1 ch) v) [ some sent ↦ sent | none ↦ drop 1 ch ]
]

-- What the ports answer to this half, and the frames that it has counted when it stops.
pub record HalfPorts : Type 0 where
  pub on_audio_track : Option Text
  pub decode : Option Error
  pub translate_stream : Option Error
  pub encode : Option Error
  pub send_audio : Option Error
  pub frames : ℕ

pub record PipelineHalf : Type 0 where
  pub source_sess_id : Text
  pub target_sess_id : Text
  pub total_chunks : ℕ
  pub error_chunks : ℕ

-- `emits` are the statuses with which `Emit` is called; what it logs then is in Tracked. `blamed` is
-- the session for which `logSessionError` is called; what that counts is in ErrorCount.
pub record HalfRun : Type 0 where
  pub half : PipelineHalf
  pub blamed : Option Text
  pub emits : List Text
  pub notified : List PortCall

-- A stage has failed: its frames are counted as errors, `Emit` is called, and a session is told.
unfoldable pub failed : PipelineHalf → ℕ → Option Text → Text → Text → Text → HalfRun
failed half frames blamed told code message = record {
  half = record half { error_chunks = half.error_chunks + frames };
  blamed = blamed;
  emits = txt "error" ∷ [];
  notified =
      notify told (txt "error") (
        (txt "code", code)
        ∷ (txt "message", message)
        ∷ (txt "session_id", half.source_sess_id)
        ∷ [])
      ∷ [];
}

-- `on_audio_track` carries the text of its error.
unfoldable pub run_half : HalfPorts → PipelineHalf → HalfRun
run_half ports half = elim ports.on_audio_track [
  | some e ↦ record {
    half = half;
    blamed = none;
    emits = [];
    notified =
        notify half.source_sess_id (txt "error")
          ((txt "reason", txt "audio track setup failed: " ++ e) ∷ [])
        ∷ [];
  }
  | none ↦ elim ports.decode [
    | some e ↦
        failed half ports.frames none half.source_sess_id (txt "codec")
          (txt "audio processing error")
    | none ↦ elim ports.translate_stream [
      | some e ↦
          failed half ports.frames (some half.source_sess_id) half.source_sess_id
            (txt "translation") (txt "translation service error")
      | none ↦ elim ports.encode [
        | some e ↦
            failed half ports.frames (some half.target_sess_id) half.target_sess_id (txt "codec")
              (txt "audio encoding error")
        | none ↦ elim ports.send_audio [
          | some e ↦
              failed half ports.frames none half.target_sess_id (txt "server")
                (txt "audio send error")
          | none ↦ record {
            half = record half { total_chunks = half.total_chunks + ports.frames };
            blamed = none;
            emits = txt "ok" ∷ [];
            notified = [];
          }
        ]
      ]
    ]
  ]
]
