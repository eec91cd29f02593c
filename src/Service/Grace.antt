-- ===== src/Service/Grace.antt =====
-- `OnDisconnect` with the function of its timer, `sweepExpiredRooms`, and the goroutine of
-- `startPipeline` (internal/app/roomsvc/pipeline.go) as far as it changes the service.
use talk_go.Prelude.{
  List, Text, [], drop, get_elem?, if◌then◌else◌, nat_eq, none, some, take, text_eq, txt, ℕ, ◌++◌,
  ◌+◌, ◌-◌, ◌==◌, ◌∷◌,
}
use talk_go.Prelude.Dict.{lookup, insert, erase}
use talk_go.Room.{Room}
use talk_go.Repository.{list_expired}
use talk_go.Service.State.{Service, PortCall, log, start_timer, notify}
use talk_go.Service.Delete.{delete_room}

unfoldable pub start_grace_timer : Service → Text → Text → Service
start_grace_timer s sid room_id = elim (lookup sid s.grace_timers) [
  | some t ↦ s
  | none ↦ record (log s (start_timer sid)) {
    grace_timers = insert sid (record { session_id = sid; room_id = room_id }) s.grace_timers;
  }
]

unfoldable pub on_disconnect : Service → Text → Service
on_disconnect s sid = if sid == [] then s else elim (lookup sid s.sessions) [
  | none ↦ s
  | some sess ↦ start_grace_timer s sid sess.room_id
]

-- `map[string]string{"reason": "peer-timeout"}`
abbrev pub room_closed_call : Text → PortCall
room_closed_call sid = notify sid (txt "room-closed") ((txt "reason", txt "peer-timeout") ∷ [])

-- The function of a timer that was started for a session and its room. It does not look whether the
-- timer has been stopped meanwhile.
unfoldable pub grace_timer_fires : Service → Text → Text → Service
grace_timer_fires s sid room_id =
    let s' = record s { grace_timers = erase sid s.grace_timers } in
    log (delete_room s' room_id).1 (room_closed_call sid)

unfoldable pub delete_rooms : List Room → Service → Service
delete_rooms [] s = s
delete_rooms (r ∷ rs) s = delete_rooms rs (delete_room s r.id).1

unfoldable pub sweep_expired_rooms : Service → ℕ → Service
unfolding delete_rooms
sweep_expired_rooms s now = delete_rooms (list_expired s.repo (now - s.config.room_ttl)) s

-- The n-th of the goroutines that have not run yet enters its pipeline into the map.
unfoldable pub start_pipeline : Service → ℕ → Service
start_pipeline s n = elim (get_elem? s.starting n) [
  | none ↦ s
  | some p ↦ record s {
    pipelines = insert p.room_id p s.pipelines;
    starting = take n s.starting ++ drop (n + 1) s.starting;
  }
]
