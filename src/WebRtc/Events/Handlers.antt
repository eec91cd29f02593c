-- ===== src/WebRtc/Events/Handlers.antt =====
-- How a session's audio handler and its inbound track find each other, and what closing leaves.
use talk_go.Prelude.{
  List, Option, Text, [], ap, arith, nat_eq, none, refl, some, sym, text_eq, ℕ, ◌++◌, ◌∙◌, ◌∷◌, ◌≡◌,
}
use talk_go.Prelude.Dict.{insert_self, erase_self, erase, lookup, insert, lookup-insert}
use talk_go.WebRtc.{
  act, PeerError, PionPeer, started, closed, close_session, on_track, on_audio_track,
}
use talk_go.WebRtc.Events.{Event, happen_all}
use talk_go.WebRtc.Events.Frame.{Elsewhere, happen_all-Same}

abbrev given : Text → ℕ → PionPeer → PionPeer
given sid h p = record p { audio_handlers = insert sid h p.audio_handlers }

abbrev ready : Text → ℕ → PionPeer → PionPeer
ready sid ch p = record p { raw_tracks = insert sid ch p.raw_tracks }

module _ (sid : Text) (h ch : ℕ) (p : PionPeer) where
  handler_waits : lookup sid p.raw_tracks ≡ none → on_audio_track sid h p ≡ given sid h p
  unfolding on_audio_track
  handler_waits e = rw (e, on_audio_track) refl

  handler_starts :
      lookup sid p.raw_tracks ≡ some ch
      → on_audio_track sid h p ≡ act (started h ch) (given sid h p)
  unfolding on_audio_track
  handler_starts e = rw (e, on_audio_track) refl

  track_waits : lookup sid p.audio_handlers ≡ none → on_track sid ch p ≡ ready sid ch p
  unfolding on_track
  track_waits e = rw (e, on_track) refl

  track_starts :
      lookup sid p.audio_handlers ≡ some h → on_track sid ch p ≡ act (started h ch) (ready sid ch p)
  unfolding on_track
  track_starts e = rw (e, on_track) refl

-- Whichever of the handler and the track comes first, and whatever happens to other sessions before
-- the other comes, the handler is then started with the track's channel, and once. What it is
-- started with does not depend on which came first.
pub on_track-on_audio_track :
    (sid : Text) (h ch : ℕ) (es : List Event) (p : PionPeer)
    → Elsewhere sid es
    → lookup sid p.audio_handlers ≡ none
    → lookup sid p.raw_tracks ≡ none
    → (let first = on_audio_track sid h p in
        let second = on_track sid ch p in
        first.actions ≡ p.actions
        × second.actions ≡ p.actions
        × (on_track sid ch (happen_all es first)).actions
          ≡ (happen_all es first).actions ++ started h ch ∷ []
        × (on_audio_track sid h (happen_all es second)).actions
          ≡ (happen_all es second).actions ++ started h ch ∷ []
        × on_track sid ch first ≡ on_audio_track sid h second)
on_track-on_audio_track sid h ch es p other no_handler no_track =
    let given_now = handler_waits sid h ch p no_track in
    let ready_now = track_waits sid h ch p no_handler in
    let handler = insert_self sid h p.audio_handlers in
    let track = insert_self sid ch p.raw_tracks in
    let later_handler = sym (happen_all-Same sid es (given sid h p) other).same_handler ∙ handler in
    let later_track = sym (happen_all-Same sid es (ready sid ch p) other).same_raw ∙ track in
    rw (given_now, ready_now)
      (
        refl,
        refl,
        ap (λ (q : PionPeer). q.actions)
            (track_starts sid h ch (happen_all es (given sid h p)) later_handler),
        ap (λ (q : PionPeer). q.actions)
            (handler_starts sid h ch (happen_all es (ready sid ch p)) later_track),
        track_starts sid h ch (given sid h p) handler
            ∙ sym (handler_starts sid h ch (ready sid ch p) track),
      )

-- What a peer holds of a session.
abbrev pub Forgotten : Text → PionPeer → Type 0
Forgotten sid p =
    lookup sid p.peers ≡ none
    × lookup sid p.local_tracks ≡ none
    × lookup sid p.audio_handlers ≡ none
    × lookup sid p.raw_tracks ≡ none
    × lookup sid p.ice_state_handlers ≡ none

-- What is left when the session's connection is closed.
abbrev without : Text → ℕ → PionPeer → PionPeer
without sid pc p = act (closed pc) (record p {
  peers = erase sid p.peers;
  local_tracks = erase sid p.local_tracks;
  audio_handlers = erase sid p.audio_handlers;
  raw_tracks = erase sid p.raw_tracks;
  ice_state_handlers = erase sid p.ice_state_handlers;
})

module _ (e : Option PeerError) (sid : Text) (p : PionPeer) where
  close_known :
      (pc : ℕ) → lookup sid p.peers ≡ some pc → close_session e sid p ≡ (e, without sid pc p)
  unfolding close_session
  close_known pc h = rw (h, close_session) refl

  close_unknown : lookup sid p.peers ≡ none → close_session e sid p ≡ (none, p)
  unfolding close_session
  close_unknown h = rw (h, close_session) refl

without-Forgotten : (sid : Text) (pc : ℕ) (p : PionPeer) → Forgotten sid (without sid pc p)
without-Forgotten sid pc p = (
  erase_self sid p.peers,
  erase_self sid p.local_tracks,
  erase_self sid p.audio_handlers,
  erase_self sid p.raw_tracks,
  erase_self sid p.ice_state_handlers,
)

-- Closing a session that has a connection closes the connection and leaves nothing of the session,
-- whatever Close answers; closing it once more, or closing a session that has none, answers nil and
-- changes nothing.
pub close_session-close_session :
    (e e' : Option PeerError) (sid : Text) (p : PionPeer)
    → (lookup sid p.peers ≡ none → close_session e sid p ≡ (none, p))
      × ((pc : ℕ)
          → lookup sid p.peers ≡ some pc
          → (let (answer, q) = close_session e sid p in
              answer ≡ e
              × q.actions ≡ p.actions ++ closed pc ∷ []
              × Forgotten sid q
              × close_session e' sid q ≡ (none, q)))
close_session-close_session e e' sid p = (
  close_unknown e sid p,
  λ pc h. rw (close_known e sid p pc h) (
    refl,
    refl,
    without-Forgotten sid pc p,
    close_unknown e' sid (without sid pc p) (erase_self sid p.peers),
  ),
)

-- A handler that is registered for a session without a connection stays after CloseSession, which
-- answers nil.
on_audio_track-close_session :
    (e : Option PeerError) (sid : Text) (h : ℕ) (p : PionPeer)
    → lookup sid p.peers ≡ none
    → (let (answer, q) = close_session e sid (on_audio_track sid h p) in
        answer ≡ none × lookup sid q.audio_handlers ≡ some h)
unfolding on_audio_track
on_audio_track-close_session e sid h p unknown =
    let still : lookup sid (on_audio_track sid h p).peers ≡ none = ground arith in
    let registered : lookup sid (on_audio_track sid h p).audio_handlers ≡ some h =
      ground (arith, lookup-insert sid sid h p.audio_handlers) in
    rw (close_unknown e sid (on_audio_track sid h p) still) (refl, registered)
