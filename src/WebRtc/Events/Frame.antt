-- ===== src/WebRtc/Events/Frame.antt =====
-- An event concerns one session.
use talk_go.WebRtc.Events.{
  create_called, close_called, handler_given, track_ready, track_gone, ice_changed, happen_all,
  session_of, happen, Event,
}
use talk_go.Prelude.{
  All, List, Text, [], arith, inl, inr, nat_eq, refl, text_eq, ℕ, ◌∙◌, ◌∷◌, ◌≡◌, ◌≢◌, ◌⊎◌,
}
use talk_go.Prelude.Dict.{lookup, lookup-insert, lookup-erase}
use talk_go.WebRtc.{
  PeerError, PionPeer, create_session, close_session, on_audio_track, on_track, track_ended,
  ice_handler,
}

-- `p` and `q` hold the same of the session.
pub record Same (sid : Text) (p q : PionPeer) : Type 0 where
  pub same_peer : lookup sid p.peers ≡ lookup sid q.peers
  pub same_track : lookup sid p.local_tracks ≡ lookup sid q.local_tracks
  pub same_handler : lookup sid p.audio_handlers ≡ lookup sid q.audio_handlers
  pub same_raw : lookup sid p.raw_tracks ≡ lookup sid q.raw_tracks

-- Pion's object, if there is one.
abbrev pub object : PeerError ⊎ ℕ → ℕ
object (inl e) = 0
object (inr v) = v

module _ (sid : Text) (p : PionPeer) where
  happen-Same : (e : Event) → session_of e ≢ sid → Same sid p (happen e p)
  unfolding session_of happen create_session close_session on_audio_track on_track track_ended
      ice_handler
  happen-Same (create_called setup j) ne = record {
    same_peer = ground (arith, lookup-insert j sid (object setup.new_peer_connection) p.peers);
    same_track = ground (arith, lookup-insert j sid (object setup.new_local_track) p.local_tracks);
    same_handler = ground arith;
    same_raw = ground arith;
  }
  happen-Same (close_called e j) ne = record {
    same_peer = ground (arith, lookup-erase j sid p.peers);
    same_track = ground (arith, lookup-erase j sid p.local_tracks);
    same_handler = ground (arith, lookup-erase j sid p.audio_handlers);
    same_raw = ground (arith, lookup-erase j sid p.raw_tracks);
  }
  happen-Same (handler_given j h) ne = record {
    same_peer = ground arith;
    same_track = ground arith;
    same_handler = ground (arith, lookup-insert j sid h p.audio_handlers);
    same_raw = ground arith;
  }
  happen-Same (track_ready j ch) ne = record {
    same_peer = ground arith;
    same_track = ground arith;
    same_handler = ground arith;
    same_raw = ground (arith, lookup-insert j sid ch p.raw_tracks);
  }
  happen-Same (track_gone j) ne = record {
    same_peer = refl;
    same_track = refl;
    same_handler = refl;
    same_raw = ground (arith, lookup-erase j sid p.raw_tracks);
  }
  happen-Same (ice_changed j state) ne = record {
    same_peer = ground arith;
    same_track = ground arith;
    same_handler = ground arith;
    same_raw = ground arith;
  }

-- No event concerns the session.
abbrev pub Elsewhere : Text → List Event → Type 0
Elsewhere sid = All (λ e. session_of e ≢ sid)

-- What is held of a session is as it was after events that concern others.
pub happen_all-Same :
    (sid : Text) (es : List Event) (p : PionPeer) → Elsewhere sid es → Same sid p (happen_all es p)
unfolding happen_all
happen_all-Same sid [] p h = record {
  same_peer = refl;
  same_track = refl;
  same_handler = refl;
  same_raw = refl;
}
happen_all-Same sid (e ∷ es) p h =
    let now = happen-Same sid p e h.0 in
    let later = happen_all-Same sid es (happen e p) h.1 in
    record {
      same_peer = now.same_peer ∙ later.same_peer;
      same_track = now.same_track ∙ later.same_track;
      same_handler = now.same_handler ∙ later.same_handler;
      same_raw = now.same_raw ∙ later.same_raw;
    }
