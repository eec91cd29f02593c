-- ===== src/Examples/ServerRuns.antt =====
-- The configuration of the server.
use talk_go.Prelude.{
  List, Text, [], arith, if◌then◌else◌, inl, inr, list_dec, min, nat_eq, refl, text_eq, true, txt,
  ℕ, ℕ_discrete, ◌+◌, ◌==◌, ◌∷◌, ◌≡◌,
}
use talk_go.RateLimiter.Quota.{allowed, requests}
use talk_go.Server.{
  AppConfig, load_config, wire, parse_log_level, level_warn, level_info, exit_code,
}
use talk_go.Server.Config.{rate_limit_rooms-quota}

-- Two variables are set.
abbrev getenv : Text → Text
getenv name =
    if name == txt "OPENAI_API_KEY"
    then txt "key"
    else if name == txt "RATE_LIMIT_ROOMS"
    then txt "12"
    else []

level_run :
    (parse_log_level (txt "warn") ≡ level_warn) × (parse_log_level (txt "loud") ≡ level_info)
unfolding parse_log_level text_eq list_dec ℕ_discrete
level_run = (refl, refl)

exit_run : exit_code (λ name. []) (λ w. true) (λ w. true) ≡ 1
unfolding exit_code load_config text_eq list_dec
exit_run = refl

abbrev ip : Text
ip = txt "1"

abbrev asked : List (Text × ℕ)
asked = (ip, 6) ∷ (txt "2", 7) ∷ (ip, 8) ∷ []

rate_limit_rooms-quota_example :
    (cfg : AppConfig) × load_config getenv ≡ inr cfg
    × allowed (wire cfg).room_limiter ip ((ip, 5) ∷ asked) ≡ min 12 (1 + requests ip asked)
unfolding text_eq list_dec ℕ_discrete
rate_limit_rooms-quota_example =
    rate_limit_rooms-quota getenv 12 ip 5 asked (λ e. cc) (inl refl) refl (omega arith)
      (omega arith) (omega arith, (omega arith, (omega arith, tt)))
