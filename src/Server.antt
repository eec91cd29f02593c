-- ===== src/Server.antt =====
-- cmd/server/main.go: the configuration that is read from the environment, and what `run` makes of
-- it. `os.Getenv` is an argument, which gives the empty text for a variable that is not set.
pub mod Atoi
pub mod Config
use talk_go.Prelude.{
  Bool, List, Text, [], if◌then◌else◌, inl, inr, nat_eq, none, not, pos, some, text_eq, txt, ℕ, ℤ,
  ◌&&◌, ◌*◌, ◌==◌, ◌∷◌, ◌⊎◌,
}
use talk_go.RateLimiter.{RateLimiter, new_rate_limiter, second}
use talk_go.Service.State.{Config as ServiceConfig}
use talk_go.WebRtc.Ice.{IceServer, build_ice_config}
use talk_go.Server.Atoi.{atoi}

pub record AppConfig : Type 0 where
  pub port : Text
  pub log_level : Text
  pub codec_mode : Text
  pub openai_api_key : Text
  pub turn_urls : Text
  pub turn_username : Text
  pub turn_password : Text
  pub rate_limit_rooms : ℤ
  pub rate_limit_ws : ℤ

pub data ConfigError : Type 0 where
  api_key_missing : ConfigError
  codec_mode_invalid : Text → ConfigError

abbrev pub or_default : Text → Text → Text
or_default v default = if v == [] then default else v

-- A limit that cannot be read is the default.
unfoldable pub limit_of : Text → ℤ → ℤ
limit_of v default = if v == [] then default else elim (atoi v) [ none ↦ default | some n ↦ n ]

unfoldable pub load_config : (Text → Text) → ConfigError ⊎ AppConfig
load_config getenv =
    let api_key = getenv (txt "OPENAI_API_KEY") in
    let codec_mode = or_default (getenv (txt "CODEC_MODE")) (txt "opus") in
    if api_key == []
    then inl api_key_missing
    else if not (codec_mode == txt "opus") && not (codec_mode == txt "passthrough")
    then inl (codec_mode_invalid codec_mode)
    else inr (record {
      port = or_default (getenv (txt "PORT")) (txt "8080");
      log_level = or_default (getenv (txt "LOG_LEVEL")) (txt "info");
      codec_mode = codec_mode;
      openai_api_key = api_key;
      turn_urls = getenv (txt "TURN_URLS");
      turn_username = getenv (txt "TURN_USERNAME");
      turn_password = getenv (txt "TURN_PASSWORD");
      rate_limit_rooms = limit_of (getenv (txt "RATE_LIMIT_ROOMS")) (pos 10);
      rate_limit_ws = limit_of (getenv (txt "RATE_LIMIT_WS")) (pos 20);
    })

pub data Level : Type 0 where
  level_debug level_info level_warn level_error : Level

unfoldable pub parse_log_level : Text → Level
parse_log_level level =
    if level == txt "debug"
    then level_debug
    else if level == txt "info"
    then level_info
    else if level == txt "warn"
    then level_warn
    else if level == txt "error"
    then level_error
    else level_info

pub data CodecKind : Type 0 where
  opus_codec passthrough_codec : CodecKind

-- What the HTTP server is told.
pub record HttpConfig : Type 0 where
  pub addr : Text
  pub turn_configured : Bool
  pub api_key_present : Bool
  pub codec_mode : Text

-- The parts that `run` makes, and their settings; times are nanoseconds.
pub record Wiring : Type 0 where
  pub level : Level
  pub ice_servers : List IceServer
  pub codec : CodecKind
  pub room_limiter : RateLimiter
  pub ws_limiter : RateLimiter
  pub service : ServiceConfig
  pub http : HttpConfig

unfoldable pub wire : AppConfig → Wiring
wire cfg = record {
  level = parse_log_level cfg.log_level;
  ice_servers = build_ice_config cfg.turn_urls cfg.turn_username cfg.turn_password;
  codec = if cfg.codec_mode == txt "opus" then opus_codec else passthrough_codec;
  room_limiter = new_rate_limiter cfg.rate_limit_rooms (3600 * second);
  ws_limiter = new_rate_limiter cfg.rate_limit_ws (3600 * second);
  service = record {
    grace_period = 30 * second;
    room_ttl = 600 * second;
    sweep_interval = 60 * second;
    max_short_code_retries = pos 5;
  };
  http = record {
    addr = b':' ∷ cfg.port;
    turn_configured = not (cfg.turn_urls == []);
    api_key_present = not (cfg.openai_api_key == []);
    codec_mode = cfg.codec_mode;
  };
}

-- `run`: the exit code. `new_service` and `listen_and_serve` tell whether these succeed.
unfoldable pub exit_code : (Text → Text) → (Wiring → Bool) → (Wiring → Bool) → ℕ
exit_code getenv new_service listen_and_serve = elim (load_config getenv) [
  | inl e ↦ 1
  | inr cfg ↦
      if not (new_service (wire cfg)) then 1 else if listen_and_serve (wire cfg) then 0 else 1
]
