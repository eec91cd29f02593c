-- ===== src/Examples/WebRtcRuns.antt =====
-- The peer connections.
use talk_go.Prelude.{
  List, Option, Text, [], if◌then◌else◌, inr, list_dec, nat_eq, none, refl, some, text_eq, true,
  txt, ℕ, ℕ_discrete, ◌++◌, ◌==◌, ◌∷◌, ◌≡◌,
}
use talk_go.Prelude.Dict.{lookup, insert}
use talk_go.WebRtc.{
  PionPeer, PeerError, pion, Setup, started, new_pion_peer, create_session, on_track,
  on_audio_track,
}
use talk_go.WebRtc.Events.{
  Event, create_called, close_called, handler_given, session_of, happen_all, happen,
}
use talk_go.WebRtc.Events.Keys.{Agree, happen_all-Agree}
use talk_go.WebRtc.Events.Handlers.{on_track-on_audio_track}
use talk_go.WebRtc.Ice.{stun_server, split, build_ice_config}
use talk_go.WebRtc.Rtp.{Sent, send_audio, send_audio-Sent}

abbrev pub sid : Text
sid = 1 ∷ []

abbrev pub setup : Setup
setup = record { new_peer_connection = inr 7; new_local_track = inr 8; add_track = none }

abbrev pub events : List Event
events = create_called setup sid ∷ handler_given sid 3 ∷ []

abbrev elsewhere : List Event
elsewhere = create_called setup (2 ∷ []) ∷ close_called none (2 ∷ []) ∷ []

abbrev peer : PionPeer
peer = (create_session setup sid (new_pion_peer true)).1

abbrev pub fail_third : ℕ → Option PeerError
fail_third n = if n == 2 then some (pion 4) else none

abbrev pub frames : List Text
frames = txt "a" ∷ txt "b" ∷ txt "c" ∷ txt "d" ∷ []

peer_known : lookup sid peer.peers ≡ some 7
unfolding create_session lookup insert text_eq list_dec ℕ_discrete
peer_known = refl

on_track-on_audio_track_example :
    (let first = on_audio_track sid 3 peer in
      let second = on_track sid 5 peer in
      first.actions ≡ peer.actions
      × second.actions ≡ peer.actions
      × (on_track sid 5 (happen_all elsewhere first)).actions
        ≡ (happen_all elsewhere first).actions ++ started 3 5 ∷ []
      × (on_audio_track sid 3 (happen_all elsewhere second)).actions
        ≡ (happen_all elsewhere second).actions ++ started 3 5 ∷ []
      × on_track sid 5 first ≡ on_audio_track sid 3 second)
unfolding session_of create_session lookup insert text_eq list_dec ℕ_discrete
on_track-on_audio_track_example =
    on_track-on_audio_track sid 3 5 elsewhere peer ((λ e. cc), ((λ e. cc), tt)) refl refl

happen_all-Agree_example : Agree (happen_all events (new_pion_peer true))
happen_all-Agree_example = happen_all-Agree true events

send_audio-Sent_example :
    Sent fail_third 0 frames
      (send_audio fail_third sid frames (happen_all events (new_pion_peer true)))
unfolding happen_all happen create_session on_audio_track lookup insert text_eq list_dec ℕ_discrete
send_audio-Sent_example = send_audio-Sent fail_third true events sid frames 7 refl

abbrev turn : Text
turn = txt "turn:a:3478,turn:b:3478"

build_ice_config_run :
    build_ice_config turn (txt "u") (txt "p")
    ≡ stun_server
      ∷ record {
        urls = txt "turn:a:3478" ∷ txt "turn:b:3478" ∷ [];
        username = txt "u";
        credential = txt "p";
      }
      ∷ []
unfolding build_ice_config split ℕ_discrete
build_ice_config_run = refl
