-- ===== src/System/Alive.antt =====
-- What holds of the whole after any run.
use talk_go.Prelude.{
  All, All-append, Bool-cases, List, Option-cases, Text, [], ap, arith, contains, err, false,
  if◌then◌else◌, inl, inr, map, nat_eq, none, ok, refl, some, text_eq, txt, ℕ, ◌∙◌, ◌∷◌, ◌≡◌, ◌≢◌,
  ◌≤◌, ◌⊎◌,
}
use talk_go.Service.State.{Ports, Service, Config, Given, new_service}
use talk_go.Service.Consistent.{UuidLaws, Saves}
use talk_go.Service.History.{Event as ServiceEvent}
use talk_go.Service.History.Sound.{Sound, HasUser}
use talk_go.Service.Promises.{history-Sound}
use talk_go.Hub.{
  Event as HubEvent, Hub, new_hub, receives, connects, breaks as breaks_hub, notifies, pumps,
  goes_on,
}
use talk_go.Hub.NoCrash.{OneSession, has_late, never_crashes}
use talk_go.System.{
  System, Event, speaks, opens, breaks, flushes, notice_goes_on, serves, ice_fails, step, run,
  session_of,
}
use talk_go.System.Traces.{service_events, service_trace, hub_trace}
use talk_go.System.Refines.{run-refines}
use talk_go.System.Joins.{tells, told, requests, told-hub_trace}

abbrev session_told : HubEvent → Text
session_told (receives d (some (ok resp))) = resp.session_id
session_told _ = []

-- The session that a client is told of first.
unfoldable pub first_session : List HubEvent → ℕ → Text
first_session [] c = []
first_session (e ∷ es) c =
    let rest = first_session es c in if tells c e then session_told e else rest

-- `owner` has the session of each client that is told of one.
abbrev Owns : (ℕ → Text) → List HubEvent → Type 0
Owns owner es = (c : ℕ) → (told c es ≡ 0) ⊎ (owner c ≡ first_session es c)

head_owned :
    (owner : ℕ → Text) (e : HubEvent) (es : List HubEvent)
    → Owns owner (e ∷ es)
    → OneSession owner e
unfolding told first_session
head_owned owner (receives d (some (ok resp))) es owns =
    λ joined. elim (owns d) [ inl never ↦ absurd (ground arith) | inr first ↦ ground arith ]
head_owned owner (receives d (some (err x))) es owns = tt
head_owned owner (receives d none) es owns = tt
head_owned owner (connects r) es owns = tt
head_owned owner (breaks_hub c) es owns = tt
head_owned owner (notifies sid kind fs) es owns = tt
head_owned owner (pumps c) es owns = tt
head_owned owner (goes_on n) es owns = tt

tail_Owns :
    (owner : ℕ → Text) (e : HubEvent) (es : List HubEvent)
    → ((c : ℕ) → told c (e ∷ es) ≤ 1)
    → Owns owner (e ∷ es)
    → Owns owner es
unfolding told first_session
tail_Owns owner e es once owns c = elim (Bool-cases (tells c e)) [
  | inl now ↦ inl (ground (arith, once c))
  | inr later ↦ elim (owns c) [ inl never ↦ inl (ground arith) | inr first ↦ inr (ground arith) ]
]

owned :
    (owner : ℕ → Text) (es : List HubEvent)
    → ((c : ℕ) → told c es ≤ 1)
    → Owns owner es
    → All (OneSession owner) es
unfolding told
owned owner [] once owns = tt
owned owner (e ∷ es) once owns = (
  head_owned owner e es owns,
  owned owner es (λ c. ground (arith, once c)) (tail_Owns owner e es once owns),
)

-- Who joins has an ID.
abbrev pub KnownUser : Event → Type 0
KnownUser (speaks c (some msg)) = msg.kind ≡ txt "join" → msg.user_id ≢ []
KnownUser (serves e) = HasUser e
KnownUser _ = Unit {0}

abbrev Timed : ℕ × ServiceEvent → Type 0
Timed (now, e) = HasUser e

service_events-Timed :
    (sys : System) (now : ℕ) (e : Event)
    → KnownUser e
    → All Timed (map (λ e'. (now, e')) (service_events sys e))
unfolding service_events
service_events-Timed sys now (opens r) k = tt
service_events-Timed sys now (speaks c none) k = tt
service_events-Timed sys now (speaks c (some msg)) k =
    elim (Bool-cases (contains c sys.hub.clients)) [ inl m ↦ rw m (k, tt) | inr away ↦ rw away tt ]
service_events-Timed sys now (breaks c) k = elim (Bool-cases (contains c sys.hub.clients)) [
  | inl m ↦ elim (Option-cases (session_of sys.hub c)) [
    | inl nobody ↦ rw (m, nobody) tt
    | inr (sid, e) ↦ rw (m, e) (tt, tt)
  ]
  | inr away ↦ rw away tt
]
service_events-Timed sys now (flushes c) k = tt
service_events-Timed sys now (notice_goes_on n) k = tt
service_events-Timed sys now (serves e) k = (k, tt)
service_events-Timed sys now (ice_fails sid) k = tt

module _ (ports : Ports) where
  service_trace-Timed :
      (sys : System) (es : List (ℕ × Event))
      → All (λ (_, e). KnownUser e) es
      → All Timed (service_trace ports sys es)
  unfolding service_trace
  service_trace-Timed sys [] k = tt
  service_trace-Timed sys ((now, e) ∷ es) k =
      All-append Timed _ _ (service_events-Timed sys now e k.0)
        (service_trace-Timed (step ports sys now e) es k.1)

pub run-Sound :
    (ports : Ports) (c : Config) (g : Given) (s : Service) (es : List (ℕ × Event))
    → UuidLaws ports
    → Saves ports
    → new_service c g ≡ ok s
    → All (λ (_, e). KnownUser e) es
    → Sound ports (run ports (record { service = s; hub = new_hub }) es).service
run-Sound ports c g s es laws saves made known =
    let sys : System = record { service = s; hub = new_hub } in
    rw ((run-refines ports sys es).0) (
      history-Sound ports c g s (service_trace ports sys es) laws saves made
        (service_trace-Timed ports sys es known))

pub clients_safe :
    (ports : Ports) (s : Service) (es : List (ℕ × Event))
    → ((client : ℕ) → requests client es ≤ 1)
    → has_late new_hub (hub_trace ports (record { service = s; hub = new_hub }) es) ≡ false
    → (run ports (record { service = s; hub = new_hub }) es).hub.crashed ≡ false
clients_safe ports s es once timely =
    let sys : System = record { service = s; hub = new_hub } in
    let trace = hub_trace ports sys es in
    let heard : (client : ℕ) → told client trace ≤ 1 =
      λ client. omega (arith, told-hub_trace ports client sys es, once client) in
    ap (λ (h : Hub). h.crashed) (run-refines ports sys es).1
    ∙ never_crashes (first_session trace) trace
        (owned (first_session trace) trace heard (λ client. inr refl)) timely
