-- ===== src/Service/Leave.antt =====
-- `LeaveRoom` of internal/app/roomsvc/service.go.
use talk_go.Prelude.{
  Error, Option, Outcome, Text, err, nat_eq, nil_dereference, none, not_in_room, ok,
  session_not_found, some, text_eq,
}
use talk_go.Prelude.Dict.{lookup, insert, erase}
use talk_go.Session.{Session, disconnect}
use talk_go.Room.{leave}
use talk_go.Repository.{find_by_id}
use talk_go.Service.State.{Ports, Service, log, key_of, put_room, peer_close}
use talk_go.Service.Delete.{drop_pipeline}

-- `err != nil && !errors.Is(err, room.ErrNotInRoom)`
abbrev pub leave_failed : Option Error → Option Error
leave_failed none = none
leave_failed (some not_in_room) = none
leave_failed (some e) = some e

-- The user is out of the room: both map entries go, and the pipeline of the room stops.
unfoldable pub forget : Service → Text → Text → Text → Service
forget s room_id user sid =
    drop_pipeline
      (record s {
        sessions = erase sid s.sessions;
        lookups = erase (key_of room_id user) s.lookups;
      })
      room_id

unfoldable pub leave_found : Ports → Service → Text → Text → Text → Session → Outcome Service
leave_found ports s room_id user sid sess =
    let s₁ =
      log (record s { sessions = insert sid (disconnect sess).1 s.sessions }) (peer_close sid) in
    elim (find_by_id s₁.repo room_id) [
      | err e ↦ (some e, s₁)
      | ok r ↦
          let (e, r') = leave r user in
          let s₂ = put_room s₁ r' in
          elim (leave_failed e) [
            | some e ↦ (some e, s₂)
            | none ↦ elim (ports.save_room r') [
              | some e ↦ (some e, s₂)
              | none ↦ (none, forget s₂ room_id user sid)
            ]
          ]
    ]

-- A missing session would be a nil pointer, whose use ends the program: `nil_dereference`.
unfoldable pub leave_room : Ports → Service → Text → Text → Outcome Service
leave_room ports s room_id user = elim (lookup (key_of room_id user) s.lookups) [
  | none ↦ (some session_not_found, s)
  | some sid ↦ elim (lookup sid s.sessions) [
    | none ↦ (some nil_dereference, s)
    | some sess ↦ leave_found ports s room_id user sid sess
  ]
]
