-- ===== src/System/Traces.antt =====
-- What a run of the whole is for the service, and for the hub.
use talk_go.Prelude.{
  List, [], contains, if◌then◌else◌, map, nat_eq, none, some, text_eq, txt, ℕ, ◌++◌, ◌∷◌,
}
use talk_go.Service.State.{Ports, PortCall, notify}
use talk_go.Service.Signal.{handle_signaling}
use talk_go.Service.Grace.{on_disconnect}
use talk_go.Service.History.{Event as ServiceEvent, signals, disconnects, happen}
use talk_go.Hub.{
  Event as HubEvent, notifies, goes_on, connects, receives, pumps, breaks as breaks_hub,
}
use talk_go.System.{
  session_of, System, Event, opens, speaks, breaks, flushes, notice_goes_on, serves, ice_fails,
  calls_since, step, ice_failed_fields,
}

-- The notifications, as events of the hub.
abbrev pub notices : List PortCall → List HubEvent
notices [] = []
notices (notify sid kind fs ∷ calls) = notifies sid kind fs ∷ notices calls
notices (_ ∷ calls) = notices calls

unfoldable pub service_events : System → Event → List ServiceEvent
service_events sys (speaks c (some msg)) =
    if contains c sys.hub.clients then signals msg ∷ [] else []
service_events sys (breaks c) =
    if contains c sys.hub.clients
    then (elim (session_of sys.hub c) [ none ↦ [] | some sid ↦ disconnects sid ∷ [] ])
    else []
service_events sys (serves e) = e ∷ []
service_events sys _ = []

module _ (ports : Ports) where
  unfoldable pub hub_events : System → ℕ → Event → List HubEvent
  hub_events sys now (opens room_id) = connects room_id ∷ []
  hub_events sys now (speaks c none) = receives c none ∷ []
  hub_events sys now (speaks c (some msg)) =
      let (resp, s') = handle_signaling ports sys.service msg now in
      if contains c sys.hub.clients
      then notices (calls_since sys.service s') ++ receives c (some resp) ∷ []
      else []
  hub_events sys now (breaks c) =
      if contains c sys.hub.clients
      then breaks_hub c ∷ (elim (session_of sys.hub c) [
        | none ↦ []
        | some sid ↦ notices (calls_since sys.service (on_disconnect sys.service sid))
      ])
      else []
  hub_events sys now (flushes c) = pumps c ∷ []
  hub_events sys now (notice_goes_on n) = goes_on n ∷ []
  hub_events sys now (serves e) = notices (calls_since sys.service (happen ports sys.service now e))
  hub_events sys now (ice_fails sid) = notifies sid (txt "error") (ice_failed_fields sid) ∷ []

  -- The events of the service, and of the hub, in a run.
  unfoldable pub service_trace : System → List (ℕ × Event) → List (ℕ × ServiceEvent)
  service_trace sys [] = []
  service_trace sys ((now, e) ∷ es) =
      map (λ e'. (now, e')) (service_events sys e) ++ service_trace (step ports sys now e) es

  unfoldable pub hub_trace : System → List (ℕ × Event) → List HubEvent
  hub_trace sys [] = []
  hub_trace sys ((now, e) ∷ es) = hub_events sys now e ++ hub_trace (step ports sys now e) es
