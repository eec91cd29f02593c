-- ===== src/Examples/PumpRuns.antt =====
-- The pumps of a client that sends and does not read.
use talk_go.Prelude.{List, [], false, nat_eq, none, refl, some, text_eq, true, txt, ◌++◌, ◌∷◌, ◌≡◌}
use talk_go.Hub.{Frame, failure}
use talk_go.Hub.Pumps.{
  notifies, hand_over, Pumps, Event, new_pumps, comes, enqueues, takes, wrote, pinged, fails, reads,
  run, step, read_step, enqueue, take_next, end_write,
}
use talk_go.Hub.Pumps.InOrder.{Ordered, frames_in_order}
use talk_go.Hub.Pumps.Stuck.{writer_frees_reader, blocked_forever}

abbrev answer : Frame
answer = failure (txt "invalid JSON")

-- A client sends messages and does not read: a frame is being written, eight wait, and the reader
-- has another.
abbrev filled : List Event
filled =
    comes (some answer)
    ∷ enqueues
    ∷ takes
    ∷ comes (some answer)
    ∷ enqueues
    ∷ comes (some answer)
    ∷ enqueues
    ∷ comes (some answer)
    ∷ enqueues
    ∷ comes (some answer)
    ∷ enqueues
    ∷ comes (some answer)
    ∷ enqueues
    ∷ comes (some answer)
    ∷ enqueues
    ∷ comes (some answer)
    ∷ enqueues
    ∷ comes (some answer)
    ∷ enqueues
    ∷ comes (some answer)
    ∷ []

frames_in_order_example : Ordered (run new_pumps filled)
frames_in_order_example = frames_in_order filled

writer_frees_reader_example :
    (run
      (run new_pumps filled)
      ((comes none ∷ []) ++ wrote true ∷ ((notifies answer ∷ enqueues ∷ []) ++ takes ∷ []))).reader
    ≡ reads
unfolding run step read_step enqueue take_next hand_over
writer_frees_reader_example =
    writer_frees_reader (comes none ∷ []) (notifies answer ∷ enqueues ∷ []) (run new_pumps filled)
      answer answer refl refl refl (tt, tt) (tt, (tt, tt))

-- Its write fails.
abbrev stalled : Pumps
stalled = run new_pumps (filled ++ wrote false ∷ [])

blocked_forever_example : run stalled (takes ∷ enqueues ∷ fails ∷ pinged true ∷ []) ≡ stalled
unfolding run step end_write read_step enqueue take_next hand_over
blocked_forever_example =
    blocked_forever (takes ∷ enqueues ∷ fails ∷ pinged true ∷ []) stalled answer refl refl refl refl
