-- ===== src/Service/Promises.antt =====
-- What the service promises its callers, whatever has happened before.
use talk_go.Service.Preserved.Join.{maps-Consistent}
use talk_go.Service.Shapes.{cancel-SameMaps}
use talk_go.Repository.{find_by_id}
use talk_go.Prelude.{
  All, List, Option-cases, Text, [], already_in_room, arith, contains, if◌then◌else◌, inl, inr,
  is_some, nat_eq, none, ok, refl, remove, session_not_found, some, some_inj, sym, text_eq, true, ℕ,
  ◌==◌, ◌∙◌, ◌∷◌, ◌≡◌, ◌≢◌, ◌⊎◌,
}
use talk_go.Prelude.Dict.{lookup, Dict, erase, lookup-erase}
use talk_go.Room.{Room, join, leave}
use talk_go.Session.{Session}
use talk_go.Service.State.{
  Ports, Service, Config, Given, new_service, key_of, log, stop_timer, put_room,
}
use talk_go.Service.Consistent.{UuidLaws, Consistent, Saves, Drawn-NoColon}
use talk_go.Service.Leave.{leave_room, leave_found}
use talk_go.Service.Preserved.Delete.{deleted_sessions}
use talk_go.Service.Delete.{delete_room}
use talk_go.Service.Join.{join_room, sessions_in, stop_timers, cancel_grace_timers_for_room, joined}
use talk_go.Service.Grace.{on_disconnect}
use talk_go.Service.Keys.{NoColon, key_of-injective}
use talk_go.Service.History.{Event, run}
use talk_go.Service.History.Sound.{Sound, HasUser, new_service-Sound, disconnect-SameMaps}
use talk_go.Service.History.Invariant.{run-Sound}

-- After every history of a new service, in which whoever joins has an ID, the rooms, the sessions
-- and the index of users fit together: each session stands under its own ID, is the one that the
-- index gives for its user, and its user is a participant of its room, which is open and in the
-- repository; each entry of the index leads to a session of that user; each participant of a room
-- has an entry; no user has two entries, and no ID has two rooms. This needs google/uuid's IDs to differ, to be
-- non-empty and to hold no colon, and the repository's `Save` to succeed, as it does in memory.
pub history-Sound :
    (ports : Ports) (c : Config) (g : Given) (s : Service) (es : List (ℕ × Event))
    → UuidLaws ports
    → Saves ports
    → new_service c g ≡ ok s
    → All (λ (_, e). HasUser e) es
    → Sound ports (run ports s es)
history-Sound ports c g s es laws saves made known =
    run-Sound ports laws saves s es known (new_service-Sound ports c g s made)

left :
    (ports : Ports) (s : Service) (id user sid : Text) (sess : Session) (r : Room)
    → Saves ports
    → lookup id s.repo ≡ some r
    → contains user r.participants ≡ true
    → (leave_found ports s id user sid sess).0 ≡ none
unfolding leave_found find_by_id leave
left ports s id user sid sess r saves at inside =
    ground (arith, saves (record r { participants = remove user r.participants }))

-- Of a consistent service whose repository saves: leaving a room fails only if the user has no
-- session there, and then with "session not found". It never dereferences a nil session, and never
-- reports a missing room or participant. The room's ID has no colon, as google/uuid's have not.
pub leave_room-result :
    (ports : Ports) (s : Service) (id user : Text)
    → UuidLaws ports
    → Saves ports
    → Consistent ports s
    → NoColon id
    → (leave_room ports s id user).0
      ≡ (if is_some (lookup (key_of id user) s.lookups) then none else some session_not_found)
unfolding leave_room
leave_room-result ports s id user laws saves c plain =
    elim (Option-cases (lookup (key_of id user) s.lookups)) [
      | inl e ↦ rw (e, leave_room) refl
      | inr (sid, entry) ↦
          let (sess, held, same) = c.entries (key_of id user) sid entry in
          let old = c.sessions_fit sid sess held in
          let parts =
            key_of-injective id sess.room_id user sess.user_id plain
              (Drawn-NoColon laws (c.rooms sess.room_id old.room old.room_found).room_drawn) same in
          rw (entry, leave_room, held)
            (left ports s id user sid sess old.room saves (rw parts.0 old.room_found)
              (rw parts.1 old.inside))
    ]

-- A session's timer is stopped if it is among those to stop, and else stays.
stop_timers-lookup :
    (sids : List Text) (s : Service) (sid : Text)
    → lookup sid (stop_timers sids s).grace_timers
      ≡ (if contains sid sids then none else lookup sid s.grace_timers)
unfolding stop_timers contains
stop_timers-lookup [] s sid = refl
stop_timers-lookup (x ∷ sids) s sid = elim (Option-cases (lookup x s.grace_timers)) [
  | inl e ↦ rw (e, stop_timers) (ground (arith, stop_timers-lookup sids s sid))
  | inr (t, e) ↦
      rw (e, stop_timers)
        (ground (
          arith,
          stop_timers-lookup sids
              (record (log s (stop_timer x)) { grace_timers = erase x s.grace_timers }) sid,
          lookup-erase x sid s.grace_timers,
        ))
]

sessions_in-contains :
    (id sid : Text) (ss : Dict Text Session) (x : Session)
    → lookup sid ss ≡ some x
    → x.id ≡ sid
    → x.room_id ≡ id
    → contains sid (sessions_in id ss) ≡ true
unfolding sessions_in contains lookup
sessions_in-contains id sid [] x e named here = cc
sessions_in-contains id sid ((k, y) ∷ ss) x e named here =
    ground (arith, sessions_in-contains id sid ss x)

join_again :
    (r : Room) (user : Text)
    → r.active ≡ true
    → contains user r.participants ≡ true
    → join r user ≡ (some already_in_room, r)
unfolding join
join_again r user open_room inside = ground arith

module _ (ports : Ports) (s : Service) (sid : Text) (x : Session) (lang : Text) (now : ℕ)
    (c : Consistent ports s) (held : lookup sid s.sessions ≡ some x) where
  again : Service
  again = cancel_grace_timers_for_room (put_room s (c.sessions_fit sid x held).room) x.room_id

  -- What joining does for a user who has a session.
  rejoined :
      lang ≢ []
      → (lang ≡ (c.sessions_fit sid x held).room.source_lang)
        ⊎ (lang ≡ (c.sessions_fit sid x held).room.target_lang)
      → join_room ports s x.room_id x.user_id lang now ≡ (ok sid, again)
  unfolding join_room find_by_id again joined
  rejoined given spoken =
      let fit = c.sessions_fit sid x held in
      let f = c.rooms x.room_id fit.room fit.room_found in
      let same = cancel-SameMaps (put_room s fit.room) x.room_id in
      let e : lookup (key_of x.room_id x.user_id)
            (cancel_grace_timers_for_room (put_room s fit.room) x.room_id).lookups
          ≡ some sid =
        rw same.same_lookups fit.found in
      ground (arith, join_again fit.room x.user_id f.open_room fit.inside, fit.room_found, e)

  again_quiet :
      (j : Text) (y : Session)
      → lookup j s.sessions ≡ some y
      → y.room_id ≡ x.room_id
      → lookup j again.grace_timers ≡ none
  unfolding again cancel_grace_timers_for_room
  again_quiet j y at same =
      let fit = c.sessions_fit sid x held in
      ground (
        arith,
        stop_timers-lookup (sessions_in x.room_id s.sessions) (put_room s fit.room) j,
        sessions_in-contains x.room_id j s.sessions y at (c.sessions_fit j y at).named same,
      )

-- The maps of the service that do not hold timers.
abbrev pub SameSessions : Service → Service → Type 0
SameSessions s t = (t.sessions ≡ s.sessions) × (t.lookups ≡ s.lookups) × (t.created ≡ s.created)

pub reconnect_keeps_session :
    (ports : Ports) (s : Service) (sid : Text) (x : Session) (r : Room) (lang : Text) (now : ℕ)
    → Consistent ports s
    → lookup sid s.sessions ≡ some x
    → lookup x.room_id s.repo ≡ some r
    → lang ≢ []
    → (lang ≡ r.source_lang) ⊎ (lang ≡ r.target_lang)
    → (s' : Service) × (join_room ports (on_disconnect s sid) x.room_id x.user_id lang now
        ≡ (ok sid, s'))
      × SameSessions s s'
      × ((j : Text) (y : Session)
          → lookup j s.sessions ≡ some y
          → y.room_id ≡ x.room_id
          → lookup j s'.grace_timers ≡ none)
reconnect_keeps_session ports s sid x r lang now c held at given spoken =
    let t = on_disconnect s sid in
    let same = disconnect-SameMaps s sid in
    let c' = maps-Consistent ports s t same c in
    let held' : lookup sid t.sessions ≡ some x = rw same.same_sessions held in
    let fit = c'.sessions_fit sid x held' in
    let e : some fit.room ≡ some r = sym fit.room_found ∙ rw same.same_repo at in
    let after = cancel-SameMaps (put_room t fit.room) x.room_id in
    (
      again ports t sid x lang now c' held',
      rejoined ports t sid x lang now c' held' given (rw (some_inj e) spoken),
      (
        unfold again in after.same_sessions ∙ same.same_sessions,
        unfold again in after.same_lookups ∙ same.same_lookups,
        unfold again in after.same_created ∙ same.same_created,
      ),
      λ j y there inside.
          again_quiet ports t sid x lang now c' held' j y (rw same.same_sessions there) inside,
    )

-- Deleting a room of a sound service removes exactly the sessions of that room: those of other
-- rooms stay as they are.
pub delete_room-sessions :
    (ports : Ports) (s : Service) (id sid : Text) (r : Room) (x : Session)
    → UuidLaws ports
    → Sound ports s
    → lookup id s.repo ≡ some r
    → lookup sid s.sessions ≡ some x
    → lookup sid (delete_room s id).1.sessions ≡ (if x.room_id == id then none else some x)
delete_room-sessions ports s id sid r x laws h at held =
    deleted_sessions ports laws s id h.consistent h.keyed r at sid x held
