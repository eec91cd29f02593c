-- ===== src/WebRtc/Events.antt =====
-- What happens to the peers, one event after another.
mod Frame
pub mod Keys
pub mod Handlers
use talk_go.Prelude.{List, Option, Text, [], nat_eq, text_eq, ℕ, ◌∷◌}
use talk_go.Prelude.Dict.{lookup}
use talk_go.WebRtc.{
  PeerError, Setup, PionPeer, Action, started, IceState, create_session, close_session, on_track,
  track_ended, on_audio_track, ice_handler,
}

-- The calls of the port, and the callbacks of Pion, that change the state.
pub data Event : Type 0 where
  create_called : Setup → Text → Event
  close_called : Option PeerError → Text → Event
  handler_given : Text → ℕ → Event
  track_ready : Text → ℕ → Event
  track_gone : Text → Event
  ice_changed : Text → IceState → Event

unfoldable pub session_of : Event → Text
session_of (create_called setup sid) = sid
session_of (close_called e sid) = sid
session_of (handler_given sid h) = sid
session_of (track_ready sid ch) = sid
session_of (track_gone sid) = sid
session_of (ice_changed sid state) = sid

unfoldable pub happen : Event → PionPeer → PionPeer
happen (create_called setup sid) p = (create_session setup sid p).1
happen (close_called e sid) p = (close_session e sid p).1
happen (handler_given sid h) p = on_audio_track sid h p
happen (track_ready sid ch) p = on_track sid ch p
happen (track_gone sid) p = track_ended sid p
happen (ice_changed sid state) p = ice_handler sid state p

unfoldable pub happen_all : List Event → PionPeer → PionPeer
happen_all [] p = p
happen_all (e ∷ es) p = happen_all es (happen e p)
