-- ===== src/System/Joins.antt =====
-- Which clients are told of a session: those that ask to join, once for each time that they ask.
use talk_go.Prelude.{
  Bool, Bool-cases, List, Option-cases, Result, Result-cases, [], arith, contains, err, false,
  if◌then◌else◌, inl, inr, list_dec, nat_eq, none, ok, refl, some, suc, text_eq, txt, ℕ, ℕ_discrete,
  ◌&&◌, ◌++◌, ◌+◌, ◌==◌, ◌∷◌, ◌≡◌, ◌≤◌,
}
use talk_go.Prelude.Dict.{lookup}
use talk_go.Service.State.{
  Ports, Service, PortCall, notify, peer_create, peer_close, peer_watch, peer_candidate,
  start_timer, stop_timer, cancel_pipeline,
}
use talk_go.Service.Signal.{
  blank, SignalingMessage, handle_signaling, handle_offer_message, handle_leave,
}
use talk_go.Service.Grace.{on_disconnect}
use talk_go.Hub.{Event as HubEvent, receives}
use talk_go.System.{
  System, Event, speaks, opens, breaks, flushes, notice_goes_on, serves, ice_fails, step,
  calls_since, session_of,
}
use talk_go.System.Traces.{notices, hub_events, hub_trace}

abbrev pub Answered : Type 0
Answered = Result SignalingMessage

-- The answer tells of a session.
abbrev pub is_joined : Answered → Bool
is_joined (ok resp) = resp.kind == txt "joined"
is_joined (err e) = false

abbrev pub tells : ℕ → HubEvent → Bool
tells c (receives d (some answer)) = d == c && is_joined answer
tells c _ = false

abbrev asks : ℕ → Event → Bool
asks c (speaks d (some msg)) = d == c && msg.kind == txt "join"
asks c _ = false

-- How often a client asks to join.
unfoldable pub requests : ℕ → List (ℕ × Event) → ℕ
requests c [] = 0
requests c ((now, e) ∷ es) = let rest = requests c es in if asks c e then suc rest else rest

unfoldable pub told : ℕ → List HubEvent → ℕ
told c [] = 0
told c (e ∷ es) = let rest = told c es in if tells c e then suc rest else rest

told-append : (c : ℕ) (xs ys : List HubEvent) → told c (xs ++ ys) ≡ told c xs + told c ys
unfolding told
told-append c [] ys = omega arith
told-append c (e ∷ xs) ys = ground (arith, told-append c xs ys)

told-notices : (c : ℕ) (calls : List PortCall) → told c (notices calls) ≡ 0
unfolding told
told-notices c [] = refl
told-notices c (notify sid kind fs ∷ calls) = told-notices c calls
told-notices c (peer_create t ∷ calls) = told-notices c calls
told-notices c (peer_close t ∷ calls) = told-notices c calls
told-notices c (peer_watch t ∷ calls) = told-notices c calls
told-notices c (peer_candidate t u ∷ calls) = told-notices c calls
told-notices c (start_timer t ∷ calls) = told-notices c calls
told-notices c (stop_timer t ∷ calls) = told-notices c calls
told-notices c (cancel_pipeline t ∷ calls) = told-notices c calls

blank_not_joined : is_joined (ok blank) ≡ false
unfolding text_eq list_dec
blank_not_joined = refl

module _ (ports : Ports) where
  offer_not_joined :
      (s : Service) (msg : SignalingMessage)
      → is_joined (handle_offer_message ports s msg).0 ≡ false
  unfolding handle_offer_message text_eq list_dec ℕ_discrete
  offer_not_joined s msg = elim (Option-cases (ports.handle_offer msg.session_id msg.sdp)) [
    | inr (e, h) ↦ rw (h, handle_offer_message) refl
    | inl h ↦ elim (Result-cases (ports.create_answer msg.session_id)) [
      | inl (e, k) ↦ rw (h, k, handle_offer_message) refl
      | inr (answer, k) ↦ rw (h, k, handle_offer_message) refl
    ]
  ]

  leave_not_joined :
      (s : Service) (msg : SignalingMessage) → is_joined (handle_leave ports s msg).0 ≡ false
  unfolding handle_leave text_eq list_dec ℕ_discrete
  leave_not_joined s msg = elim (Option-cases (lookup msg.session_id s.sessions)) [
    | inl h ↦ rw (h, handle_leave) refl
    | inr (sess, h) ↦ rw (h, handle_leave) refl
  ]

  is_joined-handle_signaling :
      (s : Service) (msg : SignalingMessage) (now : ℕ)
      → (msg.kind == txt "join") ≡ false
      → is_joined (handle_signaling ports s msg now).0 ≡ false
  unfolding handle_signaling
  is_joined-handle_signaling s msg now other =
      rw other (elim (Bool-cases (msg.kind == txt "offer")) [
        | inl o ↦ rw o (offer_not_joined s msg)
        | inr no_offer ↦ rw no_offer (elim (Bool-cases (msg.kind == txt "ice-candidate")) [
          | inl i ↦ rw i blank_not_joined
          | inr no_candidate ↦ rw no_candidate (elim (Bool-cases (msg.kind == txt "leave")) [
            | inl l ↦ rw l (leave_not_joined s msg)
            | inr no_leave ↦ rw no_leave refl
          ])
        ])
      ])

  told-answer :
      (c d : ℕ) (s : Service) (msg : SignalingMessage) (now : ℕ)
      → told c (receives d (some (handle_signaling ports s msg now).0) ∷ [])
        ≤ requests c ((now, speaks d (some msg)) ∷ [])
  unfolding told requests
  told-answer c d s msg now = elim (Bool-cases (msg.kind == txt "join")) [
    | inl join ↦ rw join (ground arith)
    | inr other ↦ rw (other, is_joined-handle_signaling s msg now other) (ground arith)
  ]

  told-hub_events :
      (c : ℕ) (sys : System) (now : ℕ) (e : Event)
      → told c (hub_events ports sys now e) ≤ requests c ((now, e) ∷ [])
  unfolding told requests hub_events
  told-hub_events c sys now (opens room_id) = omega arith
  told-hub_events c sys now (speaks d none) = omega arith
  told-hub_events c sys now (speaks d (some msg)) =
      let (resp, s') = handle_signaling ports sys.service msg now in
      let calls = calls_since sys.service s' in
      elim (Bool-cases (contains d sys.hub.clients)) [
        | inl m ↦ rw m (
            omega (
              arith,
              told-append c (notices calls) (receives d (some resp) ∷ []),
              told-notices c calls,
              told-answer c d sys.service msg now,
            ))
        | inr away ↦ rw away (omega arith)
      ]
  told-hub_events c sys now (breaks d) = elim (Bool-cases (contains d sys.hub.clients)) [
    | inr away ↦ rw away (omega arith)
    | inl m ↦ elim (Option-cases (session_of sys.hub d)) [
      | inl nobody ↦ rw (m, nobody) (omega arith)
      | inr (sid, e) ↦
          rw (m, e)
            (omega
              (arith, told-notices c (calls_since sys.service (on_disconnect sys.service sid))))
    ]
  ]
  told-hub_events c sys now (flushes d) = omega arith
  told-hub_events c sys now (notice_goes_on n) = omega arith
  told-hub_events c sys now (serves e) = omega (arith, told-notices c _)
  told-hub_events c sys now (ice_fails sid) = omega arith

  pub told-hub_trace :
      (c : ℕ) (sys : System) (es : List (ℕ × Event))
      → told c (hub_trace ports sys es) ≤ requests c es
  unfolding told requests hub_trace
  told-hub_trace c sys [] = omega arith
  told-hub_trace c sys ((now, e) ∷ es) = ground (
    arith,
    told-hub_events c sys now e,
    told-hub_trace c (step ports sys now e) es,
    told-append c (hub_events ports sys now e) (hub_trace ports (step ports sys now e) es),
  )
