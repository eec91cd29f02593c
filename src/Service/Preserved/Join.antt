-- ===== src/Service/Preserved/Join.antt =====
-- Joining a room keeps the service consistent, whether it succeeds or fails.
use talk_go.Prelude.{
  Bool-cases, Error, Option-cases, Text, [], already_in_room, ap, arith, contains, contains-snoc,
  false, if◌then◌else◌, inl, inr, nat_eq, none, not, refl, some, subst, sym, text_eq, true, ℕ, ◌&&◌,
  ◌+◌, ◌==◌, ◌∙◌, ◌≡◌, ◌≢◌,
}
use talk_go.Prelude.Dict.{lookup, insert, Updates, insert-Updates, insert_at-Updates, Updates-trans}
use talk_go.Room.{Room, join, leave, touch_activity}
use talk_go.Room.Laws.{IsValid, join-IsValid, leave-join, join-none_iff}
use talk_go.Session.{new_session}
use talk_go.Repository.{find_by_id}
use talk_go.Service.State.{Ports, Service, key_of, put_room, log, peer_create}
use talk_go.Service.Join.{
  register, undo_join, joined, open_session, join_room, cancel_grace_timers_for_room,
}
use talk_go.Service.Shapes.{SameMaps, launch_shape, cancel-SameMaps}
use talk_go.Service.Consistent.{UuidLaws, Drawn, RoomFits, Fits-mono, Drawn-fresh, Consistent}
use talk_go.Service.Consistent.Joined.{Reseated, joined-Fits}
use talk_go.Service.Consistent.Changed.{touched-Fits}

join_failed : (r : Room) (user : Text) (e : Error) → (join r user).0 ≡ some e → (join r user).1 ≡ r
unfolding join
join_failed r user e h = ground arith

join_already :
    (r : Room) (user : Text)
    → (join r user).0 ≡ some already_in_room
    → contains user r.participants ≡ true
unfolding join
join_already r user h = ground arith

join_added :
    (r : Room) (user : Text)
    → (join r user).0 ≡ none
    → (u : Text)
    → contains u (join r user).1.participants
      ≡ (if user == u then true else contains u r.participants)
unfolding join
join_added r user h u = ground (arith, contains-snoc u user r.participants)

join-Reseated : (r : Room) (user : Text) → IsValid r → Reseated r (join r user).1
join-Reseated r user v = record {
  same_id = unfold join in ground arith;
  same_active = unfold join in ground arith;
  same_capacity = unfold join in ground arith;
  still_valid = join-IsValid r user v;
}

pub touch-Reseated : (r r' : Room) (now : ℕ) → Reseated r r' → Reseated r (touch_activity r' now)
unfolding touch_activity
touch-Reseated r r' now c = record {
  same_id = c.same_id;
  same_active = c.same_active;
  same_capacity = c.same_capacity;
  still_valid = record {
    once = c.still_valid.once;
    fits = c.still_valid.fits;
    emptied = c.still_valid.emptied;
  };
}

pub same-Reseated : (r : Room) → IsValid r → Reseated r r
same-Reseated r v = record {
  same_id = refl;
  same_active = refl;
  same_capacity = refl;
  still_valid = v;
}

pub maps-Consistent :
    (ports : Ports) (s t : Service) → SameMaps s t → Consistent ports s → Consistent ports t
maps-Consistent ports s t e c = rw (e.same_repo, e.same_sessions, e.same_lookups, e.same_created) c

module _ (ports : Ports) (laws : UuidLaws ports) where
  fresh_session :
      (s : Service) → Consistent ports s → lookup (ports.uuid s.created) s.sessions ≡ none
  fresh_session s c = elim (Option-cases (lookup (ports.uuid s.created) s.sessions)) [
    | inl e ↦ e
    | inr (x, e) ↦
        absurd
          (Drawn-fresh laws s.created (c.sessions_fit (ports.uuid s.created) x e).session_drawn)
  ]

  -- Writing back a room that has not changed.
  same_room-Consistent :
      (s : Service) (id : Text) (r : Room)
      → Consistent ports s
      → lookup id s.repo ≡ some r
      → Consistent ports (put_room s r)
  same_room-Consistent s id r c at =
      let f = c.rooms id r at in
      touched-Fits ports s.repo (insert r.id r s.repo) s.sessions s.lookups s.created c id r
        (insert_at-Updates id r.id r s.repo f.keyed) r at (same-Reseated r f.valid) refl

  module _ (s : Service) (id user lang : Text) (r : Room) (now : ℕ) (c : Consistent ports s)
      (at : lookup id s.repo ≡ some r) (known : user ≢ []) (succeeds : (join r user).0 ≡ none)
      (t : Service) (like : SameMaps (put_room s (join r user).1) t) where
    r_fits : RoomFits ports s.created id r
    r_fits = c.rooms id r at

    joined_id : (join r user).1.id ≡ id
    joined_id = (join-Reseated r user r_fits.valid).same_id ∙ r_fits.keyed

    repo_after : Updates id (some (join r user).1) s.repo t.repo
    repo_after =
        rw like.same_repo (insert_at-Updates id (join r user).1.id (join r user).1 s.repo joined_id)

    t-fresh : lookup (ports.uuid t.created) s.sessions ≡ none
    t-fresh = rw like.same_created (fresh_session s c)

    t-Drawn : Drawn ports (t.created + 1) (ports.uuid t.created)
    t-Drawn = record { number = t.created; below_created = omega arith; drawn_as = refl }

    register-Consistent : Consistent ports (
        register
          (record t { created = t.created + 1 })
          id
          (join r user).1
          (new_session (ports.uuid t.created) id user lang now)
          now)
    unfolding register new_session touch_activity
    register-Consistent =
        let r' = touch_activity (join r user).1 now in
        let sess = new_session (ports.uuid t.created) id user lang now in
        subst (Consistent ports) (sym (launch_shape _ id r' sess).1) (
          joined-Fits ports laws s.repo (insert r'.id r' t.repo) s.sessions
            (insert sess.id sess t.sessions) s.lookups (insert (key_of id user) sess.id t.lookups)
            (t.created + 1) (Fits-mono (omega (arith, like.same_created)) c) id user sess.id r r'
            sess at
            (Updates-trans id (some (join r user).1) (some r') s.repo t.repo
              (insert r'.id r' t.repo) repo_after (insert_at-Updates id r'.id r' t.repo joined_id))
            (rw like.same_sessions (insert-Updates sess.id sess s.sessions))
            (rw like.same_lookups (insert-Updates (key_of id user) sess.id s.lookups))
            (touch-Reseated r (join r user).1 now (join-Reseated r user r_fits.valid))
            (join_added r user succeeds) ((join-none_iff r user).0 succeeds).1 t-fresh t-Drawn known
            refl refl refl)

    undo-Consistent :
        Consistent ports
          (undo_join false (record t { created = t.created + 1 }) (join r user).1 user)
    unfolding undo_join
    undo-Consistent =
        let back : (leave (join r user).1 user).1 ≡ r =
          ap (λ o. o.1) (leave-join r user succeeds) in
        rw (back, like.same_sessions, like.same_lookups)
          (touched-Fits ports s.repo (insert r.id r t.repo) s.sessions s.lookups (t.created + 1)
            (Fits-mono (omega (arith, like.same_created)) c) id r
            (Updates-trans id (some (join r user).1) (some r) s.repo t.repo (insert r.id r t.repo)
              repo_after (insert_at-Updates id r.id r t.repo r_fits.keyed))
            r at (same-Reseated r r_fits.valid) refl)

  module _ (s : Service) (id user lang : Text) (r : Room) (now : ℕ) (c : Consistent ports s)
      (at : lookup id s.repo ≡ some r) (known : user ≢ []) (succeeds : (join r user).0 ≡ none)
      (t : Service) (like : SameMaps (put_room s (join r user).1) t) where
    asked : Service
    asked = log t (peer_create (ports.uuid t.created))

    asked_like : SameMaps (put_room s (join r user).1) asked
    unfolding asked
    asked_like = record {
      same_repo = like.same_repo;
      same_sessions = like.same_sessions;
      same_lookups = like.same_lookups;
      same_created = like.same_created;
    }

    open_session-Consistent :
        Consistent ports (open_session ports false t id (join r user).1 user lang now).1
    unfolding open_session new_session asked
    open_session-Consistent =
        let undone = undo-Consistent s id user lang r now c at known succeeds asked asked_like in
        elim (Option-cases (ports.create_session (ports.uuid t.created))) [
          | inr (e, failed) ↦ rw (failed, open_session) undone
          | inl made ↦ elim (Option-cases (ports.save_room (join r user).1)) [
            | inr (e, failed) ↦ rw (made, open_session, failed) undone
            | inl saved ↦
                rw (made, open_session, saved)
                  (register-Consistent s id user lang r now c at known succeeds asked asked_like)
          ]
        ]

  module _ (s : Service) (id user lang : Text) (r : Room) (now : ℕ) (c : Consistent ports s)
      (at : lookup id s.repo ≡ some r) where
    rejoin-Consistent :
        contains user r.participants ≡ true
        → Consistent ports (joined ports (put_room s r) id r user lang now (some already_in_room)).1
    unfolding joined
    rejoin-Consistent inside =
        let s' = cancel_grace_timers_for_room (put_room s r) id in
        let same = cancel-SameMaps (put_room s r) id in
        let (sid, found) = c.members id user r at inside in
        let e : lookup (key_of id user) s'.lookups ≡ some sid = rw same.same_lookups found in
        rw (e, joined)
          (maps-Consistent ports (put_room s r) s' same (same_room-Consistent s id r c at))

    failed-Consistent :
        (e : Error)
        → (join r user).0 ≡ some e
        → Consistent ports (joined ports (put_room s r) id r user lang now (some e)).1
    unfolding joined
    failed-Consistent already_in_room h = rejoin-Consistent (join_already r user h)
    failed-Consistent _ h = same_room-Consistent s id r c at

    joined-Consistent :
        user ≢ []
        → Consistent ports
            (joined ports
              (put_room s (join r user).1)
              id
              (join r user).1
              user
              lang
              now
              (join r user).0).1
    unfolding joined
    joined-Consistent known = elim (Option-cases (join r user).0) [
      | inl succeeds ↦
          rw (succeeds, joined)
            (open_session-Consistent s id user lang r now c at known succeeds
              (cancel_grace_timers_for_room (put_room s (join r user).1) id)
              (cancel-SameMaps (put_room s (join r user).1) id))
      | inr (e, failed) ↦ rw (join_failed r user e failed, failed) (failed-Consistent e failed)
    ]

  -- Joining keeps the service consistent on every branch: a bad language, a missing, full or closed
  -- room, a reconnection, a peer or a repository that fails, and success.
  pub join_room-Consistent :
      (s : Service) (id user lang : Text) (now : ℕ)
      → user ≢ []
      → Consistent ports s
      → Consistent ports (join_room ports s id user lang now).1
  unfolding join_room find_by_id
  join_room-Consistent s id user lang now known c = elim (Bool-cases (lang == [])) [
    | inl missing ↦ rw missing c
    | inr given ↦ elim (Option-cases (lookup id s.repo)) [
      | inl e ↦ rw (given, e, find_by_id) c
      | inr (r, at) ↦
          elim (Bool-cases (not (lang == r.source_lang) && not (lang == r.target_lang))) [
            | inl bad ↦ rw (given, at, find_by_id, bad) c
            | inr good ↦
                rw (given, at, find_by_id, good) (joined-Consistent s id user lang r now c at known)
          ]
    ]
  ]
