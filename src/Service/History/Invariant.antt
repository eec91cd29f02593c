-- ===== src/Service/History/Invariant.antt =====
-- Every event keeps a service sound.
use talk_go.Prelude.{
  All, Bool, List, Option-cases, Result-cases, Text, [], arith, false, if_elim, if◌then◌else◌, inl,
  inr, nat_eq, refl, text_eq, true, txt, ℕ, ◌-◌, ◌==◌, ◌∷◌, ◌≡◌, ◌≢◌,
}
use talk_go.Prelude.Dict.{lookup, insert, erase, insert-Updates, insert-UniqueKeys}
use talk_go.Room.{touch_activity}
use talk_go.Repository.{list_expired, update_last_activity}
use talk_go.Service.State.{Ports, Service, log, peer_candidate}
use talk_go.Service.Consistent.{UuidLaws, Saves}
use talk_go.Service.Consistent.Changed.{touched-Fits, renamed-Fits}
use talk_go.Service.Preserved.Create.{create_room-Consistent}
use talk_go.Service.Preserved.Join.{same-Reseated, touch-Reseated}
use talk_go.Service.Create.{update_room_activity}
use talk_go.Service.Join.{join_room}
use talk_go.Service.Grace.{on_disconnect, grace_timer_fires, sweep_expired_rooms, start_pipeline}
use talk_go.Service.Signal.{
  SignalingMessage, Response, handle_signaling, handle_join, handle_leave, handle_offer_message,
  set_name, greet,
}
use talk_go.Service.History.{
  Event, creates, deletes, touches, leaves, signals, disconnects, fires, sweeps, starts, happen,
  run,
}
use talk_go.Service.History.Unique.{create_room-Keyed}
use talk_go.Service.History.RoomsOnce.{create_room-RoomsOnce}
use talk_go.Service.History.Sound.{
  Sound, HasUser, maps-Sound, disconnect-SameMaps, start-SameMaps, delete_room-Sound,
  delete_rooms-Sound, join_room-Sound, leave_room-Sound,
}

module _ (ports : Ports) (laws : UuidLaws ports) (saves : Saves ports) where
  touch-Sound :
      (s : Service) (id : Text) (now : ℕ)
      → Sound ports s
      → Sound ports (update_room_activity s id now).1
  unfolding update_room_activity update_last_activity
  touch-Sound s id now h = elim (Option-cases (lookup id s.repo)) [
    | inl e ↦ rw (e, update_last_activity) h
    | inr (r, at) ↦
        let f = h.consistent.rooms id r at in
        rw (at, update_last_activity)
          (record {
            consistent =
                touched-Fits ports s.repo (insert id (touch_activity r now) s.repo) s.sessions
                  s.lookups s.created h.consistent id (touch_activity r now)
                  (insert-Updates id (touch_activity r now) s.repo) r at
                  (touch-Reseated r r now (same-Reseated r f.valid))
                  (unfold touch_activity in refl);
            keyed = h.keyed;
            rooms_once = insert-UniqueKeys id (touch_activity r now) s.repo h.rooms_once;
          })
  ]

  set_name-Sound :
      (s : Service) (sid name : Text) → Sound ports s → Sound ports (set_name s sid name)
  unfolding set_name
  set_name-Sound s sid name h = elim (Option-cases (lookup sid s.sessions)) [
    | inl e ↦ rw (e, set_name) h
    | inr (x, at) ↦
        rw (at, set_name)
          (record {
            consistent =
                renamed-Fits ports s.repo s.sessions
                  (insert sid (record x { name = name }) s.sessions) s.lookups s.created
                  h.consistent sid x (record x { name = name }) at
                  (insert-Updates sid (record x { name = name }) s.sessions) refl refl refl;
            keyed = h.keyed;
            rooms_once = h.rooms_once;
          })
  ]

  greet-Sound :
      (s : Service) (msg : SignalingMessage) (sid : Text)
      → Sound ports s
      → Sound ports (greet s msg sid).1
  unfolding greet
  greet-Sound s msg sid h =
      maps-Sound ports s (greet s msg sid).1
        (record {
          same_repo = ground arith;
          same_sessions = ground arith;
          same_lookups = ground arith;
          same_created = ground arith;
        })
        h

  handle_join-Sound :
      (s : Service) (msg : SignalingMessage) (now : ℕ)
      → msg.user_id ≢ []
      → Sound ports s
      → Sound ports (handle_join ports s msg now).1
  unfolding handle_join
  handle_join-Sound s msg now known h =
      let done = join_room-Sound ports laws saves s msg.room_id msg.user_id msg.lang now known h in
      let s' = (join_room ports s msg.room_id msg.user_id msg.lang now).1 in
      elim (Result-cases (join_room ports s msg.room_id msg.user_id msg.lang now).0) [
        | inl (e, failed) ↦ rw (failed, handle_join) done
        | inr (sid, joined) ↦
            rw (joined, handle_join)
              (greet-Sound (set_name s' sid msg.name) msg sid (set_name-Sound s' sid msg.name done))
      ]

  handle_offer-Sound :
      (s : Service) (msg : SignalingMessage)
      → Sound ports s
      → Sound ports (handle_offer_message ports s msg).1
  unfolding handle_offer_message
  handle_offer-Sound s msg h =
      maps-Sound ports s (handle_offer_message ports s msg).1
        (record {
          same_repo = ground arith;
          same_sessions = ground arith;
          same_lookups = ground arith;
          same_created = ground arith;
        })
        h

  handle_leave-Sound :
      (s : Service) (msg : SignalingMessage)
      → Sound ports s
      → Sound ports (handle_leave ports s msg).1
  unfolding handle_leave
  handle_leave-Sound s msg h = elim (Option-cases (lookup msg.session_id s.sessions)) [
    | inl e ↦ rw (e, handle_leave) h
    | inr (x, at) ↦
        rw (at, handle_leave) (leave_room-Sound ports laws saves s x.room_id x.user_id h)
  ]

  handle_signaling-Sound :
      (s : Service) (msg : SignalingMessage) (now : ℕ)
      → (msg.kind ≡ txt "join" → msg.user_id ≢ [])
      → Sound ports s
      → Sound ports (handle_signaling ports s msg now).1
  unfolding handle_signaling
  handle_signaling-Sound s msg now known h =
      if_elim (λ (r : Response). Sound ports r.1) (msg.kind == txt "join") _ _
        (λ joins. handle_join-Sound s msg now (known (ground arith)) h)
        λ no_join.
          (choose (msg.kind == txt "offer") _ _ (handle_offer-Sound s msg h) (
            choose (msg.kind == txt "ice-candidate") _ _
              (maps-Sound ports s (log s (peer_candidate msg.session_id msg.candidate))
                (record {
                  same_repo = refl;
                  same_sessions = refl;
                  same_lookups = refl;
                  same_created = refl;
                })
                h)
              (choose (msg.kind == txt "leave") _ _ (handle_leave-Sound s msg h) h)))
    where
      choose :
          (b : Bool) (x y : Response)
          → Sound ports x.1
          → Sound ports y.1
          → Sound ports (if b then x else y).1
      choose true x y hx hy = hx
      choose false x y hx hy = hy

  grace-Sound :
      (s : Service) (sid room_id : Text)
      → Sound ports s
      → Sound ports (grace_timer_fires s sid room_id)
  unfolding grace_timer_fires
  grace-Sound s sid room_id h =
      let s' = record s { grace_timers = erase sid s.grace_timers } in
      let gone =
        delete_room-Sound ports laws saves s' room_id
          (record { consistent = h.consistent; keyed = h.keyed; rooms_once = h.rooms_once }) in
      record { consistent = gone.consistent; keyed = gone.keyed; rooms_once = gone.rooms_once }

  happen-Sound :
      (s : Service) (now : ℕ) (e : Event)
      → HasUser e
      → Sound ports s
      → Sound ports (happen ports s now e)
  unfolding happen sweep_expired_rooms
  happen-Sound s now (creates source target) k h = record {
    consistent = create_room-Consistent ports laws s source target now h.consistent;
    keyed = create_room-Keyed ports s source target now h.keyed;
    rooms_once = create_room-RoomsOnce ports s source target now h.rooms_once;
  }
  happen-Sound s now (deletes id) k h = delete_room-Sound ports laws saves s id h
  happen-Sound s now (touches id) k h = touch-Sound s id now h
  happen-Sound s now (leaves id user) k h = leave_room-Sound ports laws saves s id user h
  happen-Sound s now (signals msg) k h = handle_signaling-Sound s msg now k h
  happen-Sound s now (disconnects sid) k h =
      maps-Sound ports s (on_disconnect s sid) (disconnect-SameMaps s sid) h
  happen-Sound s now (fires sid room_id) k h = grace-Sound s sid room_id h
  happen-Sound s now sweeps k h =
      delete_rooms-Sound ports laws saves (list_expired s.repo (now - s.config.room_ttl)) s h
  happen-Sound s now (starts n) k h = maps-Sound ports s (start_pipeline s n) (start-SameMaps s n) h

  -- Whatever happens to a sound service, it stays sound.
  pub run-Sound :
      (s : Service) (es : List (ℕ × Event))
      → All (λ (_, e). HasUser e) es
      → Sound ports s
      → Sound ports (run ports s es)
  unfolding run
  run-Sound s [] k h = h
  run-Sound s ((now, e) ∷ es) k h =
      run-Sound (happen ports s now e) es k.1 (happen-Sound s now e k.0 h)
