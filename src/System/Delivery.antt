-- ===== src/System/Delivery.antt =====
-- The notifications of the service, as events of the hub.
use talk_go.Prelude.{
  List, Text, [], ap, contains, nat_eq, refl, sym, text_eq, true, ℕ, ◌++◌, ◌∙◌, ◌∷◌, ◌≡◌,
}
use talk_go.Service.State.{PortCall, notify}
use talk_go.Service.State.{
  peer_create, peer_close, peer_watch, peer_candidate, start_timer, stop_timer, cancel_pipeline,
}
use talk_go.Hub.{
  Answer, receives, dispatch, Event as HubEvent, Hub, step as step_hub, run as run_hub,
  notify_session,
}
use talk_go.System.Traces.{notices}
use talk_go.System.{deliver}

pub run_hub-append :
    (h : Hub) (xs ys : List HubEvent) → run_hub h (xs ++ ys) ≡ run_hub (run_hub h xs) ys
unfolding run_hub
run_hub-append h [] ys = refl
run_hub-append h (e ∷ xs) ys = run_hub-append (step_hub h e) xs ys

pub run_hub-one : (h : Hub) (e : HubEvent) → run_hub h (e ∷ []) ≡ step_hub h e
unfolding run_hub
run_hub-one h e = refl

pub deliver-run : (calls : List PortCall) (h : Hub) → deliver calls h ≡ run_hub h (notices calls)
unfolding deliver run_hub step_hub
deliver-run [] h = refl
deliver-run (notify sid kind fs ∷ calls) h = deliver-run calls (notify_session h sid kind fs)
deliver-run (peer_create t ∷ calls) h = deliver-run calls h
deliver-run (peer_close t ∷ calls) h = deliver-run calls h
deliver-run (peer_watch t ∷ calls) h = deliver-run calls h
deliver-run (peer_candidate t u ∷ calls) h = deliver-run calls h
deliver-run (start_timer t ∷ calls) h = deliver-run calls h
deliver-run (stop_timer t ∷ calls) h = deliver-run calls h
deliver-run (cancel_pipeline t ∷ calls) h = deliver-run calls h

notify_session-clients :
    (h : Hub) (sid kind : Text) (fs : List (Text × Text))
    → (notify_session h sid kind fs).clients ≡ h.clients
unfolding notify_session
notify_session-clients h sid kind fs = refl

pub deliver-clients : (calls : List PortCall) (h : Hub) → (deliver calls h).clients ≡ h.clients
unfolding deliver
deliver-clients [] h = refl
deliver-clients (notify sid kind fs ∷ calls) h =
    deliver-clients calls (notify_session h sid kind fs) ∙ notify_session-clients h sid kind fs
deliver-clients (peer_create t ∷ calls) h = deliver-clients calls h
deliver-clients (peer_close t ∷ calls) h = deliver-clients calls h
deliver-clients (peer_watch t ∷ calls) h = deliver-clients calls h
deliver-clients (peer_candidate t u ∷ calls) h = deliver-clients calls h
deliver-clients (start_timer t ∷ calls) h = deliver-clients calls h
deliver-clients (stop_timer t ∷ calls) h = deliver-clients calls h
deliver-clients (cancel_pipeline t ∷ calls) h = deliver-clients calls h

pub dispatch-run :
    (h : Hub) (calls : List PortCall) (c : ℕ) (a : Answer)
    → contains c h.clients ≡ true
    → dispatch (deliver calls h) c a ≡ run_hub h (notices calls ++ receives c a ∷ [])
unfolding step_hub
dispatch-run h calls c a m =
    let there : contains c (deliver calls h).clients ≡ true = rw (deliver-clients calls h) m in
    let heard : step_hub (deliver calls h) (receives c a) ≡ dispatch (deliver calls h) c a =
      rw there refl in
    sym heard
    ∙ sym (run_hub-one (deliver calls h) (receives c a))
    ∙ ap (λ (g : Hub). run_hub g (receives c a ∷ [])) (deliver-run calls h)
    ∙ sym (run_hub-append h (notices calls) (receives c a ∷ []))
