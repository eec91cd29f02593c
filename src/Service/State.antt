-- ===== src/Service/State.antt =====
-- The state of the `Service` of internal/app/roomsvc/service.go, and the ports that it calls.
-- The mutexes make each operation one step. What the service asks of its ports is kept in `calls`,
-- the latest last; what they answer is a parameter.
use talk_go.Prelude.{
  Bool, Error, List, Option, Result, Text, [], err, if◌then◌else◌, nat_eq, negsuc, nil_dependency,
  not, ok, pos, text_eq, ℕ, ℤ, ◌*◌, ◌++◌, ◌==◌, ◌||◌, ◌∷◌,
}
use talk_go.Prelude.Dict.{Dict, insert}
use talk_go.Room.{Room}
use talk_go.Session.{Session}
use talk_go.Repository.{Repository}

pub record Config : Type 0 where
  pub grace_period : ℕ
  pub room_ttl : ℕ
  pub sweep_interval : ℕ
  pub max_short_code_retries : ℤ

abbrev pub default_config : Config
default_config = record {
  grace_period = 30 * 1000000000;
  room_ttl = 600 * 1000000000;
  sweep_interval = 60 * 1000000000;
  max_short_code_retries = pos 5;
}

-- The answers of what is not under internal/: the n-th ID of google/uuid, the bytes that
-- crypto/rand delivers to the n-th short code, and the outcome of the WebRTC peer's
-- `CreateSession`, `HandleOffer` and `CreateAnswer`. `save_room` is the outcome of the repository's
-- `Save`, which is `none` for the one in memory.
pub record Ports : Type 0 where
  pub uuid : ℕ → Text
  pub entropy : ℕ → List ℕ
  pub create_session : Text → Option Error
  pub handle_offer : Text → Text → Option Error
  pub create_answer : Text → Result Text
  pub save_room : Room → Option Error

-- The fields of a notification, by name.
abbrev pub Fields : Type 0
Fields = List (Text × Text)

pub data PortCall : Type 0 where
  peer_create peer_close peer_watch : Text → PortCall
  peer_candidate : Text → Text → PortCall
  notify : Text → Text → Fields → PortCall
  start_timer stop_timer cancel_pipeline : Text → PortCall

-- A pending `time.AfterFunc`, with what its function captures.
pub record Timer : Type 0 where
  pub session_id : Text
  pub room_id : Text

-- A pipeline, or a goroutine that will start one.
pub record Pipeline : Type 0 where
  pub room_id : Text
  pub sess_a : Text
  pub sess_b : Text
  pub lang_a : Text
  pub lang_b : Text

-- `created` and `drawn` count the IDs and the short codes drawn so far; `starting` holds the
-- goroutines of `startPipeline` that have not run yet.
pub record Service : Type 0 where
  pub config : Config
  pub repo : Repository
  pub sessions : Dict Text Session
  pub lookups : Dict Text Text
  pub pipelines : Dict Text Pipeline
  pub grace_timers : Dict Text Timer
  pub starting : List Pipeline
  pub created : ℕ
  pub drawn : ℕ
  pub calls : List PortCall

-- `if cfg.MaxShortCodeRetries <= 0`
abbrev pub with_defaults : Config → Config
with_defaults c = elim c.max_short_code_retries [
  | pos n ↦ if n == 0 then record c { max_short_code_retries = pos 5 } else c
  | negsuc n ↦ record c { max_short_code_retries = pos 5 }
]

-- Which of the ports were given: repo, peer, translator, codec, notifier.
pub record Given : Type 0 where
  pub repo : Bool
  pub peer : Bool
  pub translator : Bool
  pub codec : Bool
  pub notifier : Bool

unfoldable pub new_service : Config → Given → Result Service
new_service c g =
    if not g.repo || not g.peer || not g.translator || not g.codec || not g.notifier
    then err nil_dependency
    else ok (record {
      config = with_defaults c;
      repo = [];
      sessions = [];
      lookups = [];
      pipelines = [];
      grace_timers = [];
      starting = [];
      created = 0;
      drawn = 0;
      calls = [];
    })

abbrev pub log : Service → PortCall → Service
log s c = record s { calls = s.calls ++ c ∷ [] }

-- `roomID + ":" + userID`
abbrev pub colon : ℕ
colon = b':'

abbrev pub key_of : Text → Text → Text
key_of room_id user_id = room_id ++ colon ∷ user_id

-- The attempts that `CreateRoom` makes.
abbrev pub attempts : Config → ℕ
attempts c = elim c.max_short_code_retries [ pos n ↦ n | negsuc n ↦ 0 ]

-- `r` is a room of the repository, changed in place.
abbrev pub put_room : Service → Room → Service
put_room s r = record s { repo = insert r.id r s.repo }
