-- ===== src/Server/Config.antt =====
-- What the server is configured with.
use talk_go.Server.Atoi.{atoi, numeral, atoi-numeral}
use talk_go.Prelude.{
  List, Text, [], ap, arith, false, inl, inr, list_dec, min, nat_eq, none, not, pos, refl, some,
  subst, sym, text_eq, true, txt, ℕ, ℕ_discrete, ℤ, ◌&&◌, ◌*◌, ◌+◌, ◌<◌, ◌==◌, ◌^◌, ◌∙◌, ◌∷◌, ◌≡◌,
  ◌≢◌, ◌⊎◌,
}
use talk_go.Prelude.Dict.{lookup-nil}
use talk_go.RateLimiter.Quota.{Before, allowed, requests, window_quota}
use talk_go.RateLimiter.{Bucket, second}
use talk_go.Server.{
  AppConfig, api_key_missing, codec_mode_invalid, load_config, wire, opus_codec, passthrough_codec,
  or_default, limit_of,
}

abbrev pub mode_of : (Text → Text) → Text
mode_of getenv = or_default (getenv (txt "CODEC_MODE")) (txt "opus")

-- The two modes.
abbrev pub Known : Text → Type 0
Known mode = (mode ≡ txt "opus") ⊎ (mode ≡ txt "passthrough")

abbrev pub api_key : (Text → Text) → Text
api_key getenv = getenv (txt "OPENAI_API_KEY")

mode_accepted :
    (mode : Text)
    → Known mode
    → (not (mode == txt "opus") && not (mode == txt "passthrough")) ≡ false
mode_accepted mode (inl opus) = ground arith
mode_accepted mode (inr passthrough) = ground arith

mode_refused :
    (mode : Text)
    → mode ≢ txt "opus"
    → mode ≢ txt "passthrough"
    → (not (mode == txt "opus") && not (mode == txt "passthrough")) ≡ true
mode_refused mode a b = ground arith

key_test : (key : Text) → key ≢ [] → (key == []) ≡ false
key_test key ne = ground arith

atoi-nonempty : (v : Text) (z : ℤ) → atoi v ≡ some z → v ≢ []
unfolding atoi
atoi-nonempty [] z e same = cc
atoi-nonempty (c ∷ cs) z e same = cc

limit_read : (v : Text) (default z : ℤ) → atoi v ≡ some z → limit_of v default ≡ z
unfolding limit_of
limit_read v default z e = rw (key_test v (atoi-nonempty v z e), e) refl

passthrough_test : (mode : Text) → mode ≡ txt "passthrough" → (mode == txt "opus") ≡ false
unfolding text_eq list_dec ℕ_discrete
passthrough_test mode e = subst (λ (m : Text). (m == txt "opus") ≡ false) (sym e) refl

or_default-nonempty : (v default : Text) → default ≢ [] → or_default v default ≢ []
or_default-nonempty v default ne = ground arith

-- What `load_config` answers: without a key of the API that is the error; with a key and an unknown
-- codec mode the mode is the error; with both right there is a configuration, in which the codec is
-- the one of the mode, Opus by default, and the listening address and the level are not empty.
pub load_config-result :
    (getenv : Text → Text)
    → (let mode = mode_of getenv in
        (api_key getenv ≡ [] → load_config getenv ≡ inl api_key_missing)
        × (api_key getenv ≢ []
            → mode ≢ txt "opus"
            → mode ≢ txt "passthrough"
            → load_config getenv ≡ inl (codec_mode_invalid mode))
        × (api_key getenv ≢ []
            → Known mode
            → (cfg : AppConfig) × load_config getenv ≡ inr cfg
              × (mode ≡ txt "opus" → (wire cfg).codec ≡ opus_codec)
              × (mode ≡ txt "passthrough" → (wire cfg).codec ≡ passthrough_codec)
              × cfg.port ≢ []
              × cfg.log_level ≢ []))
unfolding load_config wire
load_config-result getenv =
    let mode = mode_of getenv in
    (
      λ e. ground arith,
      λ ne a b. rw (key_test (api_key getenv) ne, mode_refused mode a b) refl,
      λ ne known.
          rw (key_test (api_key getenv) ne, mode_accepted mode known)
            (
              _,
              refl,
              λ e. ground arith,
              λ e. rw (passthrough_test mode e) refl,
              or_default-nonempty (getenv (txt "PORT")) (txt "8080") (λ e. cc),
              or_default-nonempty (getenv (txt "LOG_LEVEL")) (txt "info") (λ e. cc),
            ),
    )

pub rate_limit_rooms-quota :
    (getenv : Text → Text) (n : ℕ) (ip : Text) (now : ℕ) (rs : List (Text × ℕ))
    → api_key getenv ≢ []
    → Known (mode_of getenv)
    → getenv (txt "RATE_LIMIT_ROOMS") ≡ numeral n
    → 0 < n
    → n < 2 ^ 63
    → Before (now + 3600 * second) rs
    → (cfg : AppConfig) × load_config getenv ≡ inr cfg
      × allowed (wire cfg).room_limiter ip ((ip, now) ∷ rs) ≡ min n (1 + requests ip rs)
unfolding load_config wire
rate_limit_rooms-quota getenv n ip now rs ne known set more small t =
    rw (key_test (api_key getenv) ne, mode_accepted (mode_of getenv) known)
      (
        _,
        refl,
        window_quota _ ip now n rs
            (limit_read _ (pos 10) (pos n) (ap atoi set ∙ atoi-numeral n small)) more
            (λ b e. let same : none ≡ some b = sym (lookup-nil {V = Bucket} ip) ∙ e in cc) t,
      )
