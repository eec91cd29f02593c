-- ===== src/Service/History.antt =====
-- Histories of a service: sequences of calls, timers that fire, sweeps and goroutines that run, in
-- any order.
pub mod Unique
pub mod RoomsOnce
pub mod Sound
pub mod Invariant
use talk_go.Prelude.{List, Text, [], nat_eq, text_eq, ℕ, ◌∷◌}
use talk_go.Service.State.{Ports, Service}
use talk_go.Service.Create.{create_room, update_room_activity}
use talk_go.Service.Delete.{delete_room}
use talk_go.Service.Leave.{leave_room}
use talk_go.Service.Grace.{on_disconnect, grace_timer_fires, sweep_expired_rooms, start_pipeline}
use talk_go.Service.Signal.{SignalingMessage, handle_signaling}

-- What can happen to a service: the HTTP calls, the messages of the hub, and its own goroutines. The
-- function of a timer, `fires`, may run at any time, so also after its timer was stopped too late.
pub data Event : Type 0 where
  creates : Text → Text → Event
  deletes : Text → Event
  touches : Text → Event
  leaves : Text → Text → Event
  signals : SignalingMessage → Event
  disconnects : Text → Event
  fires : Text → Text → Event
  sweeps : Event
  starts : ℕ → Event

module _ (ports : Ports) where
  -- An event at a time.
  unfoldable pub happen : Service → ℕ → Event → Service
  happen s now (creates source target) = (create_room ports s source target now).1
  happen s now (deletes id) = (delete_room s id).1
  happen s now (touches id) = (update_room_activity s id now).1
  happen s now (leaves id user) = (leave_room ports s id user).1
  happen s now (signals msg) = (handle_signaling ports s msg now).1
  happen s now (disconnects sid) = on_disconnect s sid
  happen s now (fires sid room_id) = grace_timer_fires s sid room_id
  happen s now sweeps = sweep_expired_rooms s now
  happen s now (starts n) = start_pipeline s n

  unfoldable pub run : Service → List (ℕ × Event) → Service
  run s [] = s
  run s ((now, e) ∷ es) = run (happen s now e) es
