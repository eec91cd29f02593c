-- ===== src/WebRtc/Events/Keys.antt =====
-- The three maps of a session's connection agree.
use talk_go.Prelude.{
  Bool, List, Text, [], arith, if◌then◌else◌, is_some, nat_eq, none, some, text_eq, ℕ, ◌∷◌, ◌≡◌,
}
use talk_go.Prelude.Dict.{lookup, lookup-insert, lookup-erase, lookup-nil}
use talk_go.WebRtc.{
  PionPeer, new_pion_peer, create_session, close_session, on_track, track_ended, on_audio_track,
  ice_handler,
}
use talk_go.WebRtc.Events.{
  create_called, close_called, handler_given, track_ready, track_gone, ice_changed, Event, happen,
  happen_all,
}
use talk_go.WebRtc.Events.Frame.{object}

-- A session has a connection if and only if it has an outbound track and a handler of ICE states,
-- and that handler is its own.
pub record Agree (p : PionPeer) : Type 0 where
  pub tracked : (sid : Text) → is_some (lookup sid p.local_tracks) ≡ is_some (lookup sid p.peers)
  pub watched :
      (sid : Text)
      → lookup sid p.ice_state_handlers ≡ (if is_some (lookup sid p.peers) then some sid else none)

happen-Agree : (e : Event) (p : PionPeer) → Agree p → Agree (happen e p)
unfolding happen create_session close_session on_audio_track on_track track_ended ice_handler
happen-Agree (create_called setup j) p a = record {
  tracked = λ sid. ground (
    arith,
    a.tracked sid,
    lookup-insert j sid (object setup.new_peer_connection) p.peers,
    lookup-insert j sid (object setup.new_local_track) p.local_tracks,
  );
  watched = λ sid. ground (
    arith,
    a.watched sid,
    lookup-insert j sid (object setup.new_peer_connection) p.peers,
    lookup-insert j sid j p.ice_state_handlers,
  );
}
happen-Agree (close_called e j) p a = record {
  tracked = λ sid.
      ground (arith, a.tracked sid, lookup-erase j sid p.peers, lookup-erase j sid p.local_tracks);
  watched = λ sid.
      ground
        (arith, a.watched sid, lookup-erase j sid p.peers, lookup-erase j sid p.ice_state_handlers);
}
happen-Agree (handler_given j h) p a = record {
  tracked = λ sid. ground (arith, a.tracked sid);
  watched = λ sid. ground (arith, a.watched sid);
}
happen-Agree (track_ready j ch) p a = record {
  tracked = λ sid. ground (arith, a.tracked sid);
  watched = λ sid. ground (arith, a.watched sid);
}
happen-Agree (track_gone j) p a = record { tracked = a.tracked; watched = a.watched }
happen-Agree (ice_changed j state) p a = record {
  tracked = λ sid. ground (arith, a.tracked sid);
  watched = λ sid. ground (arith, a.watched sid);
}

new_pion_peer-Agree : (b : Bool) → Agree (new_pion_peer b)
new_pion_peer-Agree b = record {
  tracked = λ sid. ground (arith, lookup-nil {V = ℕ} sid);
  watched = λ sid. ground (arith, lookup-nil {V = ℕ} sid, lookup-nil {V = Text} sid);
}

happen_all-Agree_from : (es : List Event) (p : PionPeer) → Agree p → Agree (happen_all es p)
unfolding happen_all
happen_all-Agree_from [] p a = a
happen_all-Agree_from (e ∷ es) p a = happen_all-Agree_from es (happen e p) (happen-Agree e p a)

-- After any events since the start, whatever Pion answers, a session has a connection if and only if
-- it has an outbound track, and if and only if it has a handler of ICE states, which is its own.
pub happen_all-Agree : (b : Bool) (es : List Event) → Agree (happen_all es (new_pion_peer b))
happen_all-Agree b es = happen_all-Agree_from es (new_pion_peer b) (new_pion_peer-Agree b)
