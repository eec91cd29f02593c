-- ===== src/System/Refines.antt =====
-- The whole refines the histories of the service and the runs of the hub.
use talk_go.Prelude.{
  Bool-cases, List, Option-cases, [], ap, arith, contains, inl, inr, map, nat_eq, none, refl, some,
  sym, text_eq, ℕ, ◌++◌, ◌∙◌, ◌∷◌, ◌≡◌,
}
use talk_go.Service.State.{Ports, Service}
use talk_go.Service.Signal.{handle_signaling}
use talk_go.Service.Grace.{on_disconnect}
use talk_go.Service.History.{Event as ServiceEvent, happen, run as run_service}
use talk_go.Hub.{Hub, breaks as breaks_hub, step as step_hub, run as run_hub, unregister}
use talk_go.System.Traces.{notices, notices, service_events, hub_events, service_trace, hub_trace}
use talk_go.System.{
  run, session_of, System, Event, opens, speaks, breaks, flushes, notice_goes_on, serves, ice_fails,
  calls_since, step, hear, lose,
}
use talk_go.System.Delivery.{dispatch-run, run_hub-append, deliver-run}

module _ (ports : Ports) where
  run_service-append :
      (s : Service) (xs ys : List (ℕ × ServiceEvent))
      → run_service ports s (xs ++ ys) ≡ run_service ports (run_service ports s xs) ys
  unfolding run_service
  run_service-append s [] ys = refl
  run_service-append s ((now, e) ∷ xs) ys = run_service-append (happen ports s now e) xs ys

  step-service :
      (sys : System) (now : ℕ) (e : Event)
      → (step ports sys now e).service
        ≡ run_service ports sys.service (map (λ e'. (now, e')) (service_events sys e))
  unfolding step service_events run_service happen hear lose
  step-service sys now (opens room_id) = refl
  step-service sys now (speaks c none) = ground arith
  step-service sys now (speaks c (some msg)) = elim (Bool-cases (contains c sys.hub.clients)) [
    | inl m ↦ rw m refl
    | inr away ↦ rw away refl
  ]
  step-service sys now (breaks c) = elim (Bool-cases (contains c sys.hub.clients)) [
    | inr away ↦ rw away refl
    | inl m ↦ elim (Option-cases (session_of sys.hub c)) [
      | inl nobody ↦ rw (m, nobody, lose) refl
      | inr (sid, e) ↦ rw (m, e, lose) refl
    ]
  ]
  step-service sys now (flushes c) = refl
  step-service sys now (notice_goes_on n) = refl
  step-service sys now (serves e) = refl
  step-service sys now (ice_fails sid) = refl

  step-hub :
      (sys : System) (now : ℕ) (e : Event)
      → (step ports sys now e).hub ≡ run_hub sys.hub (hub_events ports sys now e)
  unfolding step hub_events run_hub step_hub hear lose
  step-hub sys now (opens room_id) = refl
  step-hub sys now (speaks c none) = elim (Bool-cases (contains c sys.hub.clients)) [
    | inl m ↦ rw m refl
    | inr away ↦ rw away refl
  ]
  step-hub sys now (speaks c (some msg)) = elim (Bool-cases (contains c sys.hub.clients)) [
    | inl m ↦
        let (resp, s') = handle_signaling ports sys.service msg now in
        rw m (dispatch-run sys.hub (calls_since sys.service s') c (some resp) m)
    | inr away ↦ rw away refl
  ]
  step-hub sys now (breaks c) = elim (Bool-cases (contains c sys.hub.clients)) [
    | inr away ↦ rw away refl
    | inl m ↦
        let gone : step_hub sys.hub (breaks_hub c) ≡ unregister sys.hub c = rw m refl in
        elim (Option-cases (session_of sys.hub c)) [
          | inl nobody ↦ rw (m, nobody, lose) (sym gone)
          | inr (sid, e) ↦
              let calls = calls_since sys.service (on_disconnect sys.service sid) in
              rw (m, e, lose)
                (deliver-run calls (unregister sys.hub c)
                  ∙ ap (λ (h : Hub). run_hub h (notices calls)) (sym gone))
        ]
  ]
  step-hub sys now (flushes c) = refl
  step-hub sys now (notice_goes_on n) = refl
  step-hub sys now (serves e) =
      deliver-run (calls_since sys.service (happen ports sys.service now e)) sys.hub
  step-hub sys now (ice_fails sid) = refl

  -- Whatever clients, callers, timers and goroutines do, in any order: the service goes through a
  -- history of calls, which are its own and those that the hub's clients cause; and the hub goes
  -- through a run, whose events are its clients', the notices that the service sends, and the
  -- answers that the service gives to the clients' messages.
  pub run-refines :
      (sys : System) (es : List (ℕ × Event))
      → (run ports sys es).service ≡ run_service ports sys.service (service_trace ports sys es)
        × (run ports sys es).hub ≡ run_hub sys.hub (hub_trace ports sys es)
  unfolding run service_trace hub_trace run_service run_hub
  run-refines sys [] = (refl, refl)
  run-refines sys ((now, e) ∷ es) =
      let rest = run-refines (step ports sys now e) es in
      (
        rest.0
            ∙ ap
                (λ (s : Service).
                  run_service ports s (service_trace ports (step ports sys now e) es))
                (step-service sys now e)
            ∙ sym (
                run_service-append sys.service (map (λ e'. (now, e')) (service_events sys e))
                  (service_trace ports (step ports sys now e) es)),
        rest.1
            ∙ ap (λ (h : Hub). run_hub h (hub_trace ports (step ports sys now e) es))
                (step-hub sys now e)
            ∙ sym (
                run_hub-append sys.hub (hub_events ports sys now e)
                  (hub_trace ports (step ports sys now e) es)),
      )
