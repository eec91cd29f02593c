-- ===== src/Service/Shapes.antt =====
-- Which fields of the service the helpers of its operations leave alone.
use talk_go.Prelude.{
  List, Option-cases, Text, [], ap, arith, inl, inr, nat_eq, refl, text_eq, ◌∷◌, ◌≡◌,
}
use talk_go.Prelude.Dict.{Dict, lookup}
use talk_go.Room.{Room}
use talk_go.Session.{Session}
use talk_go.Service.State.{Service, Timer, Pipeline, PortCall}
use talk_go.Service.Join.{stop_timers, cancel_grace_timers_for_room, launch, sessions_in}
use talk_go.Service.Delete.{drop_pipeline}

-- The same maps and counter.
pub record SameMaps (s t : Service) : Type 0 where
  pub same_repo : t.repo ≡ s.repo
  pub same_sessions : t.sessions ≡ s.sessions
  pub same_lookups : t.lookups ≡ s.lookups
  pub same_created : t.created ≡ s.created

-- The same service but for timers and calls.
abbrev pub WithTimers : Service → Service → Type 0
WithTimers s t =
    (timers : Dict Text Timer) × (calls : List PortCall) × (t
      ≡ record s { grace_timers = timers; calls = calls })

pub stop_timers_shape : (sids : List Text) (s : Service) → WithTimers s (stop_timers sids s)
unfolding stop_timers
stop_timers_shape [] s = (s.grace_timers, s.calls, refl)
stop_timers_shape (sid ∷ sids) s = elim (Option-cases (lookup sid s.grace_timers)) [
  | inl e ↦ rw (e, stop_timers) (stop_timers_shape sids s)
  | inr (t, e) ↦
      rw (e, stop_timers) (stop_timers_shape sids (record s { grace_timers = _; calls = _ }))
]

pub launch_shape :
    (s : Service) (room_id : Text) (r : Room) (sess : Session)
    → (p : List Pipeline) × (launch s room_id r sess ≡ record s { starting = p })
unfolding launch
launch_shape s room_id r sess = ((launch s room_id r sess).starting, ground arith)

pub drop_pipeline_shape :
    (s : Service) (room_id : Text)
    → (pipes : Dict Text Pipeline) × (calls : List PortCall) × (drop_pipeline s room_id
        ≡ record s { pipelines = pipes; calls = calls })
unfolding drop_pipeline
drop_pipeline_shape s room_id =
    ((drop_pipeline s room_id).pipelines, (drop_pipeline s room_id).calls, ground arith)

pub cancel_shape :
    (s : Service) (room_id : Text) → WithTimers s (cancel_grace_timers_for_room s room_id)
unfolding cancel_grace_timers_for_room
cancel_shape s room_id = stop_timers_shape (sessions_in room_id s.sessions) s

pub cancel-SameMaps :
    (s : Service) (room_id : Text) → SameMaps s (cancel_grace_timers_for_room s room_id)
cancel-SameMaps s room_id =
    let (timers, calls, e) = cancel_shape s room_id in
    record {
      same_repo = ap (λ (t : Service). t.repo) e;
      same_sessions = ap (λ (t : Service). t.sessions) e;
      same_lookups = ap (λ (t : Service). t.lookups) e;
      same_created = ap (λ (t : Service). t.created) e;
    }
