-- ===== src/Session.antt =====
-- internal/domain/session/session.go: the life of a participant's WebRTC session.
pub mod Laws
use talk_go.Prelude.{
  Bool, List, Outcome, Text, [], false, invalid_transition, none, some, true, ℕ, ◌∷◌,
}

pub data State : Type 0 where
  connecting active disconnected : State

pub record Session : Type 0 where
  pub id : Text
  pub room_id : Text
  pub user_id : Text
  pub lang : Text
  pub name : Text
  pub joined_at : ℕ
  pub state : State
  pub error_count : ℕ

unfoldable pub new_session : Text → Text → Text → Text → ℕ → Session
new_session id room_id user_id lang now = record {
  id = id;
  room_id = room_id;
  user_id = user_id;
  lang = lang;
  name = [];
  joined_at = now;
  state = connecting;
  error_count = 0;
}

activate_from : State → Session → Outcome Session
activate_from connecting s = (none, record s { state = active })
activate_from active s = (some invalid_transition, s)
activate_from disconnected s = (some invalid_transition, s)

-- `if s.State != StateConnecting`
unfoldable pub activate : Session → Outcome Session
unfolding activate_from
activate s = activate_from s.state s

unfoldable pub disconnect : Session → Outcome Session
disconnect s = (none, record s { state = disconnected })

is_active_state : State → Bool
is_active_state connecting = false
is_active_state active = true
is_active_state disconnected = false

unfoldable pub is_active : Session → Bool
unfolding is_active_state
is_active s = is_active_state s.state

pub data Call : Type 0 where
  activates disconnects : Call

unfoldable pub step : Session → Call → Session
step s activates = (activate s).1
step s disconnects = (disconnect s).1

unfoldable pub run : Session → List Call → Session
run s [] = s
run s (c ∷ cs) = run (step s c) cs
