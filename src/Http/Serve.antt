-- ===== src/Http/Serve.antt =====
-- The server of internal/adapters/http/server.go with its routes. ServeMux of net/http finds the route of
-- a request; one that matches none never reaches the server. Sockets and signals are left out.
use talk_go.Prelude.{
  Bool, List, Option, Text, [], false, nat_eq, none, some, text_eq, txt, ℕ, ◌*◌, ◌∷◌,
}
use talk_go.RateLimiter.{RateLimiter, second}
use talk_go.Service.State.{Ports, Service}
use talk_go.Http.{
  Response, health, create_room_handler, delete_room_handler, get_room_by_short_code_handler,
  ws_handler, FeedbackRequest, feedback_handler, middleware,
}

-- `Config`, times in nanoseconds.
pub record Config : Type 0 where
  pub addr : Text
  pub read_timeout : ℕ
  pub write_timeout : ℕ
  pub shutdown_timeout : ℕ
  pub turn_configured : Bool
  pub api_key_present : Bool
  pub codec_mode : Text

abbrev pub default_config : Config
default_config = record {
  addr = txt ":8080";
  read_timeout = 10 * second;
  write_timeout = 10 * second;
  shutdown_timeout = 15 * second;
  turn_configured = false;
  api_key_present = false;
  codec_mode = [];
}

-- The limiters may be nil. `service` is the state of the manager.
pub record Server : Type 0 where
  pub cfg : Config
  pub service : Service
  pub has_hub : Bool
  pub room_limiter : Option RateLimiter
  pub ws_limiter : Option RateLimiter

-- A request that matches a route, with its path value or its body.
pub data Call : Type 0 where
  get_health : Call
  delete_room get_room_by_code get_ws : Text → Call
  post_feedback : Option FeedbackRequest → Call
  post_rooms : Option (Text × Text) → Call

unfoldable pub health_handler : Config → Response
health_handler cfg = record {
  status = 200;
  body = health cfg.turn_configured cfg.api_key_present cfg.codec_mode;
}

-- A handler behind a limiter that may be nil.
unfoldable pub limited :
    {S : Type 0}
    → Option RateLimiter
    → Text
    → ℕ
    → S
    → Response × S
    → Option RateLimiter × Response × S
limited none ip now s next = (none, next.0, next.1)
limited (some rl) ip now s next =
    let (rl', resp, s') = middleware rl ip now s next in (some rl', resp, s')

module _ (ports : Ports) where
  -- `registerRoutes`, for a request of the client `ip`.
  unfoldable pub serve : Server → Text → ℕ → Call → Response × Server
  serve srv ip now get_health = (health_handler srv.cfg, srv)
  serve srv ip now (delete_room id) =
      let (resp, s) = delete_room_handler srv.service id in (resp, record srv { service = s })
  serve srv ip now (get_room_by_code code) = (get_room_by_short_code_handler srv.service code, srv)
  serve srv ip now (post_feedback req) = ((feedback_handler req).0, srv)
  serve srv ip now (post_rooms req) =
      let (rl, resp, s) =
        limited srv.room_limiter ip now srv.service
          (create_room_handler ports srv.service req now) in
      (resp, record srv { service = s; room_limiter = rl })
  serve srv ip now (get_ws room_id) =
      let (rl, resp, s) =
        limited srv.ws_limiter ip now srv.service
          (ws_handler srv.has_hub srv.service room_id, srv.service) in
      (resp, record srv { service = s; ws_limiter = rl })

  -- The responses to a sequence of requests: the client, the time and the call.
  unfoldable pub serve_all : Server → List (Text × ℕ × Call) → List (Text × Response)
  serve_all srv [] = []
  serve_all srv ((ip, now, call) ∷ cs) =
      let (resp, srv') = serve srv ip now call in (ip, resp) ∷ serve_all srv' cs
