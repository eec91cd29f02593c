-- ===== src/Latency.antt =====
-- internal/app/roomsvc/latency.go: the times of the stages of a chunk. The pool of buffers is left
-- out, since `Reset` clears what it takes from it. The index past the fixed array of `Emit` would
-- end the program: `crashed`.
pub mod Stages
use talk_go.Prelude.{
  Bool, List, Option, Text, [], false, if◌then◌else◌, length, ltb, map, nat_eq, none, some, text_eq,
  txt, ℕ, ◌++◌, ◌+◌, ◌-◌, ◌/◌, ◌==◌, ◌∷◌,
}

pub record StageTiming : Type 0 where
  pub stage : Text
  pub start_at : ℕ
  pub end_at : Option ℕ
  pub duration : ℕ

pub record ChunkLatency : Type 0 where
  pub chunk_id : ℕ
  pub stage_timings : List StageTiming

pub record LatencyTracker : Type 0 where
  pub current : Option ChunkLatency
  pub chunk_id : ℕ

abbrev pub new_latency_tracker : LatencyTracker
new_latency_tracker = record { current = none; chunk_id = 0 }

unfoldable pub start_stage : LatencyTracker → Text → ℕ → LatencyTracker
start_stage lt stage now = elim lt.current [
  | none ↦ lt
  | some cl ↦ record lt {
    current = some (record cl {
      stage_timings =
          cl.stage_timings
          ++ record { stage = stage; start_at = now; end_at = none; duration = 0 } ∷ [];
    });
  }
]

-- `st.Stage == stage && st.EndAt.IsZero()`
unfoldable pub is_unclosed : Text → StageTiming → Bool
is_unclosed stage st = elim st.end_at [ none ↦ st.stage == stage | some t ↦ false ]

-- The last unclosed entry of the stage is closed; `none` if there is none.
unfoldable pub close_last : Text → ℕ → List StageTiming → Option (List StageTiming)
close_last stage now [] = none
close_last stage now (st ∷ sts) = elim (close_last stage now sts) [
  | some closed ↦ some (st ∷ closed)
  | none ↦
      if is_unclosed stage st
      then some (record st { end_at = some now; duration = now - st.start_at } ∷ sts)
      else none
]

unfoldable pub end_stage : LatencyTracker → Text → ℕ → LatencyTracker
end_stage lt stage now = elim lt.current [
  | none ↦ lt
  | some cl ↦ elim (close_last stage now cl.stage_timings) [
    | none ↦ lt
    | some closed ↦ record lt { current = some (record cl { stage_timings = closed }) }
  ]
]

abbrev pub millisecond : ℕ
millisecond = 1000000

-- `stageMsKey`; each of its cases is the stage with the suffix.
abbrev pub stage_ms_key : Text → Text
stage_ms_key stage = stage ++ txt "_ms"

unfoldable pub total_of : List StageTiming → ℕ
total_of [] = 0
total_of (st ∷ sts) = st.duration + total_of sts

-- What `Emit` logs.
pub record ChunkLog : Type 0 where
  pub half : Text
  pub room_id : Text
  pub chunk_id : ℕ
  pub status : Text
  pub total_ms : ℕ
  pub stages : List (Text × ℕ)

abbrev pub max_stages : ℕ
max_stages = 5

pub data Emitted : Type 0 where
  silent crashed : Emitted
  logged : ChunkLog → Emitted

unfoldable pub emit : LatencyTracker → Text → Text → Text → Emitted × LatencyTracker
emit lt half room_id status =
    let lt' = record lt { current = none } in
    elim lt.current [
      | none ↦ (silent, lt')
      | some cl ↦ if ltb max_stages (length cl.stage_timings) then (crashed, lt') else (
        logged (record {
          half = half;
          room_id = room_id;
          chunk_id = cl.chunk_id;
          status = status;
          total_ms = total_of cl.stage_timings / millisecond;
          stages =
              map (λ (st : StageTiming). (stage_ms_key st.stage, st.duration / millisecond))
                cl.stage_timings;
        }),
        lt',
      )
    ]

unfoldable pub reset : LatencyTracker → LatencyTracker
reset lt =
    let id = lt.chunk_id + 1 in
    record lt { chunk_id = id; current = some (record { chunk_id = id; stage_timings = [] }) }
