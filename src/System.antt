-- ===== src/System.antt =====
-- The service and the hub together, as `run` of cmd/server/main.go wires them: the hub's handler is
-- the service, and the service's notifier is the hub.
pub mod Traces
mod Delivery
pub mod Refines
pub mod Joins
pub mod Alive
use talk_go.Prelude.{
  List, Option, Text, [], contains, drop, if◌then◌else◌, length, nat_eq, none, some, text_eq, txt,
  ℕ, ◌==◌, ◌∷◌,
}
use talk_go.Prelude.Dict.{lookup}
use talk_go.Service.State.{Ports, Service, PortCall, Fields, notify}
use talk_go.Service.Signal.{SignalingMessage, handle_signaling}
use talk_go.Service.Grace.{on_disconnect}
use talk_go.Service.History.{happen, Event as ServiceEvent}
use talk_go.Hub.{Hub, register, unregister, dispatch, notify_session, pump, advance}

pub record System : Type 0 where
  pub service : Service
  pub hub : Hub

-- The calls that are notifications begin at the hub.
unfoldable pub deliver : List PortCall → Hub → Hub
deliver [] h = h
deliver (notify sid kind fs ∷ calls) h = deliver calls (notify_session h sid kind fs)
deliver (_ ∷ calls) h = deliver calls h

abbrev pub calls_since : Service → Service → List PortCall
calls_since s s' = drop (length s.calls) s'.calls

-- The service has come to `s'`.
abbrev pub settle : System → Service → System
settle sys s' = record { service = s'; hub = deliver (calls_since sys.service s') sys.hub }

-- `opens`, `speaks` and `breaks` are what a WebSocket client does, `flushes` its write pump; a
-- message is `none` if it is no JSON. `serves` is what else reaches the service: HTTP calls, its
-- timers and its goroutines. `ice_fails` is a connection of the WebRTC peer. `notice_goes_on` is the
-- next step of a call of `NotifySession`.
pub data Event : Type 0 where
  opens : Text → Event
  speaks : ℕ → Option SignalingMessage → Event
  breaks flushes notice_goes_on : ℕ → Event
  serves : ServiceEvent → Event
  ice_fails : Text → Event

-- `peer.OnICEFailed`
abbrev pub ice_failed_fields : Text → Fields
ice_failed_fields sid =
    (txt "code", txt "ice-failed")
    ∷ (txt "message", txt "ICE connection failed")
    ∷ (txt "session_id", sid)
    ∷ []

-- `readPump` hands a message of a client on, while it is registered.
unfoldable pub hear : Ports → System → ℕ → Option SignalingMessage → ℕ → System
hear ports sys c none now = record sys { hub = dispatch sys.hub c none }
hear ports sys c (some msg) now =
    let (resp, s') = handle_signaling ports sys.service msg now in
    let told = settle sys s' in record told { hub = dispatch told.hub c (some resp) }

-- The session of a client, if it has one.
unfoldable pub session_of : Hub → ℕ → Option Text
session_of h c = elim (lookup c h.heap) [
  | none ↦ none
  | some cl ↦ if cl.session_id == [] then none else some cl.session_id
]

unfoldable pub lose : System → ℕ → System
lose sys c =
    let told : System = record sys { hub = unregister sys.hub c } in
    elim (session_of sys.hub c) [
      | none ↦ told
      | some sid ↦ settle told (on_disconnect sys.service sid)
    ]

module _ (ports : Ports) where
  unfoldable pub step : System → ℕ → Event → System
  step sys now (opens room_id) = record sys { hub = register sys.hub room_id }
  step sys now (speaks c msg) = if contains c sys.hub.clients then hear ports sys c msg now else sys
  step sys now (breaks c) = if contains c sys.hub.clients then lose sys c else sys
  step sys now (flushes c) = record sys { hub = pump sys.hub c }
  step sys now (notice_goes_on n) = record sys { hub = advance sys.hub n }
  step sys now (serves e) = settle sys (happen ports sys.service now e)
  step sys now (ice_fails sid) = record sys {
    hub = notify_session sys.hub sid (txt "error") (ice_failed_fields sid);
  }

  unfoldable pub run : System → List (ℕ × Event) → System
  run sys [] = sys
  run sys ((now, e) ∷ es) = run (step sys now e) es
