-- ===== src/WebRtc.antt =====
-- internal/adapters/webrtc: the peer connections by session, `PionPeer`. Pion is a parameter: what it
-- answers to a call is an argument, and its objects are told apart by numbers. The lock is held for
-- the whole of a function, but for SendAudio. An operation that starts goroutines or calls back
-- appends what it does to `actions`.
pub mod Ice
pub mod Events
pub mod Rtp
use talk_go.Prelude.{
  Bool, Error, List, Option, Text, [], if◌then◌else◌, inl, inr, length, ltb, nat_eq, none,
  session_not_found, some, text_eq, ℕ, ◌++◌, ◌∷◌, ◌⊎◌,
}
use talk_go.Prelude.Dict.{Dict, lookup, insert, erase}

-- ErrSessionNotFound, the errors that have no name in the program, and those of Pion.
pub data PeerError : Type 0 where
  already_exists no_track : PeerError
  sentinel : Error → PeerError
  pion : ℕ → PeerError

pub data Action : Type 0 where
  -- The handler is started with the channel.
  started : ℕ → ℕ → Action
  -- The connection is closed.
  closed : ℕ → Action
  -- OnICEFailed is called.
  ice_failed : Text → Action

-- `peers`, `local_tracks` and `raw_tracks` hold Pion's objects and channels, `audio_handlers` the
-- handlers, whose context is never used, and `ice_state_handlers` what the handler of the session
-- captures, its id.
pub record PionPeer : Type 0 where
  pub peers : Dict Text ℕ
  pub local_tracks : Dict Text ℕ
  pub audio_handlers : Dict Text ℕ
  pub raw_tracks : Dict Text ℕ
  pub ice_state_handlers : Dict Text Text
  pub on_ice_failed : Bool
  pub actions : List Action

abbrev pub new_pion_peer : Bool → PionPeer
new_pion_peer on_ice_failed = record {
  peers = [];
  local_tracks = [];
  audio_handlers = [];
  raw_tracks = [];
  ice_state_handlers = [];
  on_ice_failed = on_ice_failed;
  actions = [];
}

abbrev pub act : Action → PionPeer → PionPeer
act a p = record p { actions = p.actions ++ a ∷ [] }

-- What Pion answers while a session is set up: the connection, the track, and AddTrack's error.
pub record Setup : Type 0 where
  pub new_peer_connection : PeerError ⊎ ℕ
  pub new_local_track : PeerError ⊎ ℕ
  pub add_track : Option PeerError

abbrev pub Answer : Type 0
Answer = Option PeerError × PionPeer

unfoldable pub create_session : Setup → Text → PionPeer → Answer
create_session setup sid p = elim (lookup sid p.peers) [
  | some pc ↦ (some already_exists, p)
  | none ↦ elim setup.new_peer_connection [
    | inl e ↦ (some e, p)
    | inr pc ↦ elim setup.new_local_track [
      | inl e ↦ (some e, act (closed pc) p)
      | inr track ↦ elim setup.add_track [
        | some e ↦ (some e, act (closed pc) p)
        | none ↦ (
          none,
          record p {
            ice_state_handlers = insert sid sid p.ice_state_handlers;
            peers = insert sid pc p.peers;
            local_tracks = insert sid track p.local_tracks;
          },
        )
      ]
    ]
  ]
]

-- `close_error` is what Close answers.
unfoldable pub close_session : Option PeerError → Text → PionPeer → Answer
close_session close_error sid p = elim (lookup sid p.peers) [
  | none ↦ (none, p)
  | some pc ↦ (
    close_error,
    act (closed pc) (record p {
      peers = erase sid p.peers;
      local_tracks = erase sid p.local_tracks;
      audio_handlers = erase sid p.audio_handlers;
      raw_tracks = erase sid p.raw_tracks;
      ice_state_handlers = erase sid p.ice_state_handlers;
    }),
  )
]

-- HandleOffer and AddICECandidate: Pion's method is called on the connection of the session.
unfoldable pub handle_offer :
    (ℕ → Text → Option PeerError) → Text → Text → PionPeer → Option PeerError
handle_offer set_remote_description sid sdp p = elim (lookup sid p.peers) [
  | none ↦ some (sentinel session_not_found)
  | some pc ↦ set_remote_description pc sdp
]

unfoldable pub add_ice_candidate :
    (ℕ → Text → Option PeerError) → Text → Text → PionPeer → Option PeerError
add_ice_candidate add sid candidate p = elim (lookup sid p.peers) [
  | none ↦ some (sentinel session_not_found)
  | some pc ↦ add pc candidate
]

-- `create` is CreateAnswer, `set` SetLocalDescription; `description` is the SDP once gathering is
-- complete.
unfoldable pub create_answer :
    (ℕ → PeerError ⊎ Text)
    → (ℕ → Text → Option PeerError)
    → (ℕ → Text)
    → Text
    → PionPeer
    → PeerError ⊎ Text
create_answer create set description sid p = elim (lookup sid p.peers) [
  | none ↦ inl (sentinel session_not_found)
  | some pc ↦ elim (create pc) [
    | inl e ↦ inl e
    | inr answer ↦ elim (set pc answer) [ some e ↦ inl e | none ↦ inr (description pc) ]
  ]
]

-- The callback is given the candidates that Pion gathers; the last is nil and is not passed on.
unfoldable pub on_ice_candidate : (ℕ → List (Option Text)) → Text → PionPeer → PeerError ⊎ List Text
on_ice_candidate gathered sid p = elim (lookup sid p.peers) [
  | none ↦ inl (sentinel session_not_found)
  | some pc ↦ inr (passed (gathered pc))
]
  where
    passed : List (Option Text) → List Text
    passed [] = []
    passed (c ∷ cs) = let rest = passed cs in elim c [ none ↦ rest | some t ↦ t ∷ rest ]

-- A packet of the inbound track, for the channel of 32 payloads, whose waiting ones are a list.
unfoldable pub forward : List Text → Text → List Text
forward ch [] = ch
forward ch (b ∷ bs) = if ltb (length ch) 32 then ch ++ (b ∷ bs) ∷ [] else ch

-- The callback that is given to pc.OnTrack, with the channel that it makes. Its goroutine calls
-- `forward` for each packet and at last `track_ended`.
unfoldable pub on_track : Text → ℕ → PionPeer → PionPeer
on_track sid ch p =
    let p' : PionPeer = record p { raw_tracks = insert sid ch p.raw_tracks } in
    elim (lookup sid p.audio_handlers) [ none ↦ p' | some h ↦ act (started h ch) p' ]

-- The deferred call when the track can no longer be read.
unfoldable pub track_ended : Text → PionPeer → PionPeer
track_ended sid p = record p { raw_tracks = erase sid p.raw_tracks }

unfoldable pub on_audio_track : Text → ℕ → PionPeer → PionPeer
on_audio_track sid h p =
    let p' : PionPeer = record p { audio_handlers = insert sid h p.audio_handlers } in
    elim (lookup sid p.raw_tracks) [ none ↦ p' | some ch ↦ act (started h ch) p' ]

-- The states of an ICE connection, and of a connection: Pion's, then the program's.
pub data IceState : Type 0 where
  ice_new ice_checking ice_connected ice_completed ice_disconnected ice_failed_state ice_closed :
      IceState

pub data PionState : Type 0 where
  unknown new connecting connected disconnected failed closed_state : PionState

pub data PeerConnectionState : Type 0 where
  state_new state_connecting state_connected state_disconnected state_failed state_closed :
      PeerConnectionState

-- `iceHandler`, which CreateSession gives to Pion.
unfoldable pub ice_handler : Text → IceState → PionPeer → PionPeer
ice_handler sid ice_failed_state p = if p.on_ice_failed then act (ice_failed sid) p else p
ice_handler sid _ p = p

unfoldable pub pion_state_to_driven : PionState → PeerConnectionState
pion_state_to_driven new = state_new
pion_state_to_driven connecting = state_connecting
pion_state_to_driven connected = state_connected
pion_state_to_driven disconnected = state_disconnected
pion_state_to_driven failed = state_failed
pion_state_to_driven closed_state = state_closed
pion_state_to_driven unknown = state_new

unfoldable pub connection_state :
    (ℕ → PionState) → Text → PionPeer → PeerError ⊎ PeerConnectionState
connection_state state sid p = elim (lookup sid p.peers) [
  | none ↦ inl (sentinel session_not_found)
  | some pc ↦ inr (pion_state_to_driven (state pc))
]
