-- ===== src/Service/Join.antt =====
-- `JoinRoom` and `cancelGraceTimersForRoom` of internal/app/roomsvc/service.go.
use talk_go.Prelude.{
  Bool, Error, List, Option, Result, Text, [], already_in_room, err, false, if◌then◌else◌,
  lang_not_supported, missing_lang, nat_eq, none, not, ok, some, text_eq, true, ℕ, ◌&&◌, ◌++◌, ◌+◌,
  ◌==◌, ◌∷◌,
}
use talk_go.Prelude.Dict.{Dict, lookup, insert, erase}
use talk_go.Session.{Session, new_session}
use talk_go.Room.{Room, join, leave, is_full, touch_activity}
use talk_go.Repository.{find_by_id}
use talk_go.Service.State.{
  Ports, Service, log, key_of, put_room, peer_create, peer_close, stop_timer,
}

-- The IDs of the sessions of a room.
unfoldable pub sessions_in : Text → Dict Text Session → List Text
sessions_in room_id [] = []
sessions_in room_id ((_, sess) ∷ ss) =
    let rest = sessions_in room_id ss in if sess.room_id == room_id then sess.id ∷ rest else rest

unfoldable pub stop_timers : List Text → Service → Service
stop_timers [] s = s
stop_timers (sid ∷ sids) s = stop_timers sids (elim (lookup sid s.grace_timers) [
  | none ↦ s
  | some t ↦ record (log s (stop_timer sid)) { grace_timers = erase sid s.grace_timers }
])

unfoldable pub cancel_grace_timers_for_room : Service → Text → Service
cancel_grace_timers_for_room s room_id = stop_timers (sessions_in room_id s.sessions) s

-- The first session of the room that is not the new one.
unfoldable pub first_other : Text → Text → Dict Text Session → Option Session
first_other room_id sid [] = none
first_other room_id sid ((_, sess) ∷ ss) =
    if sess.room_id == room_id && not (sess.id == sid)
    then some sess
    else first_other room_id sid ss

-- `if r.IsFull() { … go s.startPipeline(r, sessA, sessB) }`
unfoldable pub launch : Service → Text → Room → Session → Service
launch s room_id r sess =
    if is_full r
    then (elim (first_other room_id sess.id s.sessions) [
      | none ↦ s
      | some a ↦ record s {
        starting =
            s.starting
            ++ record {
              room_id = r.id;
              sess_a = a.id;
              sess_b = sess.id;
              lang_a = a.lang;
              lang_b = sess.lang;
            }
              ∷ [];
      }
    ])
    else s

-- The rollback of a join that fails later on.
unfoldable pub undo_join : Bool → Service → Room → Text → Service
undo_join true s r user = s
undo_join false s r user = put_room s (leave r user).1

-- The new session goes into both maps, and the room's activity is noted.
unfoldable pub register : Service → Text → Room → Session → ℕ → Service
register s room_id r sess now =
    let r' = touch_activity r now in
    let s' = record s {
      sessions = insert sess.id sess s.sessions;
      lookups = insert (key_of room_id sess.user_id) sess.id s.lookups;
    } in
    launch (put_room s' r') room_id r' sess

-- From `session.NewSession` on; `r` is the room in the repository, which the user is in.
unfoldable pub open_session :
    Ports → Bool → Service → Text → Room → Text → Text → ℕ → Result Text × Service
open_session ports reconnect s room_id r user lang now =
    let sess = new_session (ports.uuid s.created) room_id user lang now in
    let s₁ = record (log s (peer_create sess.id)) { created = s.created + 1 } in
    elim (ports.create_session sess.id) [
      | some e ↦ (err e, undo_join reconnect s₁ r user)
      | none ↦ elim (ports.save_room r) [
        | some e ↦ (err e, log (undo_join reconnect s₁ r user) (peer_close sess.id))
        | none ↦ (ok sess.id, register s₁ room_id r sess now)
      ]
    ]

-- What follows a join whose result is `e`. (The second `r.Join` of a reconnection without a session
-- fails like the first and changes nothing.)
unfoldable pub joined :
    Ports → Service → Text → Room → Text → Text → ℕ → Option Error → Result Text × Service
joined ports s room_id r user lang now none =
    open_session ports false (cancel_grace_timers_for_room s room_id) room_id r user lang now
joined ports s room_id r user lang now (some already_in_room) =
    let s' = cancel_grace_timers_for_room s room_id in
    elim (lookup (key_of room_id user) s'.lookups) [
      | some sid ↦ (ok sid, s')
      | none ↦ open_session ports true s' room_id r user lang now
    ]
joined ports s room_id r user lang now (some e) = (err e, s)

unfoldable pub join_room : Ports → Service → Text → Text → Text → ℕ → Result Text × Service
join_room ports s room_id user lang now =
    if lang == [] then (err missing_lang, s) else elim (find_by_id s.repo room_id) [
      | err e ↦ (err e, s)
      | ok r ↦
          if not (lang == r.source_lang) && not (lang == r.target_lang)
          then (err lang_not_supported, s)
          else (let (e, r') = join r user in
              joined ports (put_room s r') room_id r' user lang now e)
    ]
