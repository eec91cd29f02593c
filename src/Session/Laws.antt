-- ===== src/Session/Laws.antt =====
-- The transitions of a session.
use talk_go.Prelude.{List, [], arith, false, invalid_transition, refl, some, ℕ, ◌∷◌, ◌≡◌, ◌≤◌}
use talk_go.Session.{
  State, connecting, active, disconnected, Session, activate, disconnect, is_active, Call,
  activates, disconnects, step, run,
}

-- The transitions that the comments of the source allow.
pub data Allowed : State → State → Type 0 where
  stay : (s : State) → Allowed s s
  handshake : Allowed connecting active
  finish : (s : State) → Allowed s disconnected

activate-Allowed : (s : Session) (t : State) → s.state ≡ t → Allowed t (activate s).1.state
unfolding activate
activate-Allowed s connecting e = rw (e, activate) handshake
activate-Allowed s active e = simp (e, activate) (stay active)
activate-Allowed s disconnected e = simp (e, activate) (stay disconnected)

-- Every call makes an allowed transition, or leaves the state.
pub step-Allowed : (s : Session) (c : Call) → Allowed s.state (step s c).state
unfolding step disconnect
step-Allowed s activates = activate-Allowed s s.state refl
step-Allowed s disconnects = finish s.state

-- How far a session has come in its life.
abbrev pub age : State → ℕ
age connecting = 0
age active = 1
age disconnected = 2

Allowed-age : {s t : State} → Allowed s t → age s ≤ age t
Allowed-age (stay s) = omega arith
Allowed-age handshake = omega arith
Allowed-age (finish connecting) = omega arith
Allowed-age (finish active) = omega arith
Allowed-age (finish disconnected) = omega arith

-- No history of calls takes a session back to an earlier state.
pub run-age : (s : Session) (cs : List Call) → age s.state ≤ age (run s cs).state
unfolding run
run-age s [] = omega arith
run-age s (c ∷ cs) = omega (arith, run-age (step s c) cs, Allowed-age (step-Allowed s c))

oldest : (t : State) → 2 ≤ age t → t ≡ disconnected
oldest connecting h = absurd (omega arith)
oldest active h = absurd (omega arith)
oldest disconnected h = refl

activate_disconnected :
    (s : Session) → s.state ≡ disconnected → activate s ≡ (some invalid_transition, s)
unfolding activate
activate_disconnected s e = rw e

-- After a disconnect, whatever is called: the session is disconnected, is not reported active, and
-- cannot be activated.
pub disconnected_forever :
    (s : Session) (cs : List Call)
    → let t = run (disconnect s).1 cs in
      (t.state ≡ disconnected) × (is_active t ≡ false) × (activate t ≡ (some invalid_transition, t))
disconnected_forever s cs =
    let t = run (disconnect s).1 cs in
    let e : t.state ≡ disconnected =
      oldest t.state (unfold disconnect in run-age (disconnect s).1 cs) in
    (e, inactive t e, activate_disconnected t e)
  where
    inactive : (t : Session) → t.state ≡ disconnected → is_active t ≡ false
    inactive t e = unfold is_active in rw e
