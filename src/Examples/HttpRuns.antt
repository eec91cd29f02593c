-- ===== src/Examples/HttpRuns.antt =====
-- The handlers of the HTTP server, and the latency of a chunk.
use talk_go.Prelude.{
  List, Option, Text, [], arith, map, nat_eq, none, ok, pos, refl, some, text_eq, true, txt, ℕ, ◌+◌,
  ◌/◌, ◌∷◌, ◌≡◌, ◌≤◌,
}
use talk_go.Prelude.Dict.{lookup}
use talk_go.Service.State.{Service, Ports, default_config as service_config}
use talk_go.RateLimiter.{RateLimiter, new_rate_limiter}
use talk_go.Http.Serve.{
  Server, Call, default_config, post_rooms, get_health, post_feedback, serve_all,
}
use talk_go.Http.RoomQuota.{created, rooms_within_quota}
use talk_go.Latency.{new_latency_tracker, emit, reset, logged, total_of, millisecond}
use talk_go.Latency.Stages.{run_stages, timing, stage_entry, emit-run_stages}

abbrev service : Service
service = record {
  config = service_config;
  repo = [];
  sessions = [];
  lookups = [];
  pipelines = [];
  grace_timers = [];
  starting = [];
  created = 0;
  drawn = 0;
  calls = [];
}

abbrev stages : List (Text × ℕ × ℕ)
stages = (txt "capture", 0, 1000000) ∷ (txt "decode", 1000000, 4500000) ∷ []

emit-run_stages_example :
    (emit (run_stages (reset new_latency_tracker) stages) (txt "AtoB") (txt "r") (txt "ok")).0
    ≡ logged (record {
      half = txt "AtoB";
      room_id = txt "r";
      chunk_id = 0 + 1;
      status = txt "ok";
      total_ms = total_of (map timing stages) / millisecond;
      stages = map stage_entry stages;
    })
emit-run_stages_example =
    emit-run_stages new_latency_tracker stages (txt "AtoB") (txt "r") (txt "ok") (omega arith)

abbrev ports : Ports
ports = record {
  uuid = λ n. n ∷ [];
  entropy = λ n. n ∷ 1 ∷ 2 ∷ 3 ∷ 4 ∷ 5 ∷ [];
  create_session = λ sid. none;
  handle_offer = λ sid sdp. none;
  create_answer = λ sid. ok (txt "answer");
  save_room = λ r. none;
}

-- One room in a hundred time units for each client.
abbrev limiter : RateLimiter
limiter = new_rate_limiter (pos 1) 100

abbrev server : Server
server = record {
  cfg = default_config;
  service = service;
  has_hub = true;
  room_limiter = some limiter;
  ws_limiter = none;
}

abbrev spanish : Option (Text × Text)
spanish = some (txt "es", txt "en")

abbrev calls : List (Text × ℕ × Call)
calls =
    (txt "1", 20, post_rooms spanish)
    ∷ (txt "1", 21, get_health)
    ∷ (txt "2", 22, post_rooms spanish)
    ∷ (txt "1", 23, post_rooms spanish)
    ∷ (txt "1", 500, post_feedback none)
    ∷ []

rooms_within_quota_example : created (txt "1") (serve_all ports server calls) ≤ 1
unfolding lookup
rooms_within_quota_example =
    rooms_within_quota ports server limiter (txt "1") 10 1 calls refl refl (omega arith) refl
      (omega arith)
