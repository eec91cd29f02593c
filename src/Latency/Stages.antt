-- ===== src/Latency/Stages.antt =====
-- The stages of a chunk.
use talk_go.Prelude.{
  List, Text, [], ap, append-nil, append_assoc, arith, false, length, length-map, ltb, map, nat_eq,
  none, refl, some, text_eq, ℕ, ◌++◌, ◌+◌, ◌-◌, ◌/◌, ◌∷◌, ◌≡◌, ◌≤◌,
}
use talk_go.Latency.{
  LatencyTracker, StageTiming, logged, reset, start_stage, end_stage, emit, close_last, total_of,
  stage_ms_key, millisecond, is_unclosed,
}

-- A run of the stages: each starts, and ends before the next one starts; a stage is its name, its
-- start and its end.
unfoldable pub run_stages : LatencyTracker → List (Text × ℕ × ℕ) → LatencyTracker
run_stages lt [] = lt
run_stages lt ((stage, from, to) ∷ ss) =
    run_stages (end_stage (start_stage lt stage from) stage to) ss

abbrev pub timing : Text × ℕ × ℕ → StageTiming
timing (stage, from, to) = record {
  stage = stage;
  start_at = from;
  end_at = some to;
  duration = to - from;
}

close_last-snoc :
    (stage : Text) (from to : ℕ) (sts : List StageTiming)
    → close_last stage to
        (sts ++ record { stage = stage; start_at = from; end_at = none; duration = 0 } ∷ [])
      ≡ some (sts ++ timing (stage, from, to) ∷ [])
unfolding close_last is_unclosed
close_last-snoc stage from to [] = ground arith
close_last-snoc stage from to (st ∷ sts) = rw (close_last-snoc stage from to sts) refl

one_stage :
    (id n : ℕ) (sts : List StageTiming) (stage : Text) (from to : ℕ)
    → end_stage
        (start_stage
          (record { current = some (record { chunk_id = id; stage_timings = sts }); chunk_id = n })
          stage
          from)
        stage
        to
      ≡ record {
        current =
            some (record { chunk_id = id; stage_timings = sts ++ timing (stage, from, to) ∷ [] });
        chunk_id = n;
      }
unfolding start_stage end_stage
one_stage id n sts stage from to =
    rw (close_last-snoc stage from to sts, end_stage, start_stage) refl

all_stages :
    (id n : ℕ) (ss : List (Text × ℕ × ℕ)) (sts : List StageTiming)
    → run_stages
        (record { current = some (record { chunk_id = id; stage_timings = sts }); chunk_id = n })
        ss
      ≡ record {
        current = some (record { chunk_id = id; stage_timings = sts ++ map timing ss });
        chunk_id = n;
      }
unfolding run_stages
all_stages id n [] sts = rw (append-nil sts) refl
all_stages id n ((stage, from, to) ∷ ss) sts =
    rw
      (
        one_stage id n sts stage from to,
        all_stages id n ss (sts ++ timing (stage, from, to) ∷ []),
        append_assoc sts (timing (stage, from, to) ∷ []) (map timing ss),
      )
      refl

abbrev pub stage_entry : Text × ℕ × ℕ → Text × ℕ
stage_entry (stage, from, to) = (stage_ms_key stage, (to - from) / millisecond)

logged_stages :
    (ss : List (Text × ℕ × ℕ))
    → map {B = Text × ℕ}
        (λ (st : StageTiming). (stage_ms_key st.stage, st.duration / millisecond))
        (map timing ss)
      ≡ map stage_entry ss
logged_stages [] = refl
logged_stages (s ∷ ss) = ap (λ (l : List (Text × ℕ)). stage_entry s ∷ l) (logged_stages ss)

few_enough : (n : ℕ) → n ≤ 5 → ltb 5 n ≡ false
few_enough n h = ground arith

-- The chunk's log, when at most five stages have run one after the other since `Reset`: the number of the
-- chunk, each stage with its own time, and their sum as the total. The fixed array is not overrun.
pub emit-run_stages :
    (lt : LatencyTracker) (ss : List (Text × ℕ × ℕ)) (half room_id status : Text)
    → length ss ≤ 5
    → (emit (run_stages (reset lt) ss) half room_id status).0
      ≡ logged (record {
        half = half;
        room_id = room_id;
        chunk_id = lt.chunk_id + 1;
        status = status;
        total_ms = total_of (map timing ss) / millisecond;
        stages = map stage_entry ss;
      })
unfolding emit reset
emit-run_stages lt ss half room_id status few =
    rw
      (
        all_stages (lt.chunk_id + 1) (lt.chunk_id + 1) ss [],
        few_enough (length (map timing ss)) (omega (arith, length-map {0, 0} ss timing, few)),
        logged_stages ss,
        emit,
      )
      refl
