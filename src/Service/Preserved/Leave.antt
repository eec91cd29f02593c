-- ===== src/Service/Preserved/Leave.antt =====
-- Leaving a room keeps the service consistent.
use talk_go.Prelude.{
  Option-cases, Text, arith, contains, contains-remove, false, if◌then◌else◌, inl, inr, nat_eq,
  none, refl, some, subst, sym, text_eq, true, ◌==◌, ◌∙◌, ◌≡◌,
}
use talk_go.Prelude.Dict.{
  lookup, insert, erase, insert-Updates, insert_at-Updates, erase-Updates, Updates-trans,
}
use talk_go.Room.{Room, leave}
use talk_go.Room.Laws.{IsValid, leave-IsValid}
use talk_go.Session.{Session, disconnect}
use talk_go.Repository.{find_by_id}
use talk_go.Service.State.{Ports, Service, key_of, put_room, log, peer_close}
use talk_go.Service.Leave.{leave_room, leave_found, forget}
use talk_go.Service.Keys.{key_of-injective}
use talk_go.Service.Shapes.{drop_pipeline_shape}
use talk_go.Service.Consistent.{UuidLaws, RoomFits, Fits, Consistent, Drawn-NoColon, Saves}
use talk_go.Service.Consistent.Joined.{Reseated}
use talk_go.Service.Consistent.Left.{left-Fits}
use talk_go.Service.Consistent.Changed.{renamed-Fits}

leave-Reseated : (r : Room) (user : Text) → IsValid r → Reseated r (leave r user).1
leave-Reseated r user v = record {
  same_id = unfold leave in ground arith;
  same_active = unfold leave in ground arith;
  same_capacity = unfold leave in ground arith;
  still_valid = leave-IsValid r user v;
}

leave_member :
    (r : Room) (user : Text)
    → contains user r.participants ≡ true
    → ((leave r user).0 ≡ none)
      × ((u : Text)
          → contains u (leave r user).1.participants
            ≡ (if user == u then false else contains u r.participants))
unfolding leave
leave_member r user h = (ground arith, λ u. ground (arith, contains-remove user u r.participants))

module _ (ports : Ports) (laws : UuidLaws ports) where
  module _ (s : Service) (id user sid : Text) (r : Room) (sess : Session) (c : Consistent ports s)
      (entry : lookup (key_of id user) s.lookups ≡ some sid)
      (held : lookup sid s.sessions ≡ some sess) (at : lookup id s.repo ≡ some r)
      (inside : contains user r.participants ≡ true) where
    r_fits : RoomFits ports s.created id r
    r_fits = c.rooms id r at

    -- The maps when the leave has gone through.
    forgotten :
        Fits ports
          (insert (leave r user).1.id (leave r user).1 s.repo)
          (erase sid (insert sid (disconnect sess).1 s.sessions))
          (erase (key_of id user) s.lookups)
          s.created
    forgotten =
        let r' = (leave r user).1 in
        left-Fits ports laws s.repo (insert r'.id r' s.repo) s.sessions
          (erase sid (insert sid (disconnect sess).1 s.sessions)) s.lookups
          (erase (key_of id user) s.lookups) s.created c id user sid r r' at
          (insert_at-Updates id r'.id r' s.repo
            ((leave-Reseated r user r_fits.valid).same_id ∙ r_fits.keyed))
          (Updates-trans sid (some (disconnect sess).1) none s.sessions
            (insert sid (disconnect sess).1 s.sessions) _
            (insert-Updates sid (disconnect sess).1 s.sessions)
            (erase-Updates sid (insert sid (disconnect sess).1 s.sessions)))
          (erase-Updates (key_of id user) s.lookups) (leave-Reseated r user r_fits.valid)
          (leave_member r user inside).1 entry

    forget-Consistent : Consistent ports (
        forget
          (put_room
            (log
              (record s { sessions = insert sid (disconnect sess).1 s.sessions })
              (peer_close sid))
            (leave r user).1)
          id
          user
          sid)
    unfolding forget
    forget-Consistent = subst (Consistent ports) (sym (drop_pipeline_shape _ id).2) forgotten

  -- The session's state alone has changed.
  disconnected :
      (s : Service) (sid : Text) (sess : Session)
      → Consistent ports s
      → lookup sid s.sessions ≡ some sess
      → Fits ports s.repo (insert sid (disconnect sess).1 s.sessions) s.lookups s.created
  unfolding disconnect
  disconnected s sid sess c held =
      renamed-Fits ports s.repo s.sessions (insert sid (disconnect sess).1 s.sessions) s.lookups
        s.created c sid sess (disconnect sess).1 held
        (insert-Updates sid (disconnect sess).1 s.sessions) refl refl refl

  -- The user whose entry leads to a session is in the room.
  pub its_room :
      (s : Service) (id user sid : Text) (r : Room) (sess : Session)
      → Consistent ports s
      → lookup sid s.sessions ≡ some sess
      → lookup id s.repo ≡ some r
      → key_of id user ≡ key_of sess.room_id sess.user_id
      → contains user r.participants ≡ true
  its_room s id user sid r sess c held at same =
      let old = c.sessions_fit sid sess held in
      let parts =
        key_of-injective id sess.room_id user sess.user_id
          (Drawn-NoColon laws (c.rooms id r at).room_drawn)
          (Drawn-NoColon laws (c.rooms sess.room_id old.room old.room_found).room_drawn) same in
      let here : lookup id s.repo ≡ some old.room =
        subst (λ k. lookup k s.repo ≡ some old.room) (sym parts.0) old.room_found in
      cc (old.inside, parts.1, at, here)

  -- If the repository's `Save` succeeds, as it always does in memory, leaving keeps the service
  -- consistent.
  pub leave_room-Consistent :
      Saves ports
      → (s : Service) (id user : Text) → Consistent ports s
      → Consistent ports (leave_room ports s id user).1
  unfolding leave_room leave_found find_by_id
  leave_room-Consistent saves s id user c =
      elim (Option-cases (lookup (key_of id user) s.lookups)) [
        | inl e ↦ rw (e, leave_room) c
        | inr (sid, entry) ↦
            let (sess, held, same) = c.entries (key_of id user) sid entry in
            elim (Option-cases (lookup id s.repo)) [
              | inl e ↦
                  rw (entry, leave_room, held, leave_found, e, find_by_id)
                    (disconnected s sid sess c held)
              | inr (r, at) ↦
                  let inside = its_room s id user sid r sess c held at same in
                  rw
                    (
                      entry,
                      leave_room,
                      held,
                      leave_found,
                      at,
                      find_by_id,
                      (leave_member r user inside).0,
                      saves (leave r user).1,
                    )
                    (forget-Consistent s id user sid r sess c entry held at inside)
            ]
      ]
