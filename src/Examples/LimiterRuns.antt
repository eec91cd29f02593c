-- ===== src/Examples/LimiterRuns.antt =====
-- The rate limiter.
use talk_go.Prelude.{
  All, List, Text, [], arith, contains, list_dec, min, nat_eq, pos, refl, text_eq, true, txt, ℕ,
  ℕ_discrete, ◌+◌, ◌∷◌, ◌≡◌,
}
use talk_go.Prelude.Dict.{lookup}
use talk_go.RateLimiter.{answers, asks, ticks, RateLimiter, new_rate_limiter, decisions}
use talk_go.RateLimiter.ClientIp.{
  client_ip, cut, cut_last, split_host_port, trim_space, trim_left, trim_right,
}
use talk_go.RateLimiter.Spoofed.{forged, forged-decisions}
use talk_go.RateLimiter.Quota.{window_quota, allowed, requests}
use talk_go.RateLimiter.Ticks.{answers-decisions, asked as asked_of}

abbrev limiter : RateLimiter
limiter = new_rate_limiter (pos 2) 100

abbrev ip : Text
ip = txt "1"

abbrev asked : List (Text × ℕ)
asked = (txt "2", 11) ∷ (ip, 12) ∷ (ip, 50) ∷ (ip, 99) ∷ []

window_quota_example : allowed limiter ip ((ip, 10) ∷ asked) ≡ min 2 (1 + requests ip asked)
unfolding lookup
window_quota_example =
    window_quota limiter ip 10 2 asked refl (omega arith) (λ b e. cc)
      (omega arith, (omega arith, (omega arith, (omega arith, tt))))

abbrev asked' : List (Text × ℕ)
asked' = (ip, 9000000001) ∷ (ip, 9000000002) ∷ []

-- One request in a window of 2.5 seconds has been spent.
abbrev spent : RateLimiter
spent = record {
  buckets = (ip, record { count = 1; window_start = 0 }) ∷ [];
  limit = pos 1;
  window = 2500000000;
}

answers-decisions_example :
    answers spent (ticks 3 ∷ asks ip 9000000001 ∷ ticks 9000000001 ∷ asks ip 9000000002 ∷ [])
    ≡ decisions spent asked'
unfolding lookup asked_of
answers-decisions_example =
    answers-decisions spent 1
      (ticks 3 ∷ asks ip 9000000001 ∷ ticks 9000000001 ∷ asks ip 9000000002 ∷ []) (refl, tt)
      (omega arith, (omega arith, (omega arith, (omega arith, tt))))

client_ip_run :
    (client_ip (record { forwarded = []; real_ip = []; remote_addr = txt "10.0.0.1:50" })
      ≡ txt "10.0.0.1")
    × (client_ip (record { forwarded = []; real_ip = []; remote_addr = txt "[::1]:50" })
        ≡ txt "::1")
    × (client_ip (record { forwarded = []; real_ip = []; remote_addr = txt "::1" }) ≡ txt "::1")
    × (client_ip
          (record { forwarded = txt " 1.2 , 3.4"; real_ip = txt "5"; remote_addr = txt "6:7" })
        ≡ txt "1.2")
unfolding client_ip cut cut_last split_host_port trim_space trim_left trim_right contains text_eq
    list_dec ℕ_discrete
client_ip_run = (refl, refl, refl, refl)

-- Three requests with headers of their own.
abbrev forgeries : List (Text × ℕ)
forgeries = (txt "1", 1) ∷ (txt "2", 2) ∷ (txt "33", 3) ∷ []

abbrev strict : RateLimiter
strict = new_rate_limiter (pos 1) 100

forged-decisions_example :
    All (λ (granted, _). granted ≡ true) (decisions strict (forged (txt "10.0.0.1:50") forgeries))
unfolding contains text_eq list_dec ℕ_discrete lookup
forged-decisions_example =
    forged-decisions strict (txt "10.0.0.1:50") forgeries (refl, (refl, (refl, tt)))
      (
        (((λ e. cc), (((λ e. cc), refl), tt)), refl),
        (
          (((λ e. cc), (((λ e. cc), refl), tt)), refl),
          ((((λ e. cc), (((λ e. cc), refl), (((λ e. cc), refl), tt))), refl), tt),
        ),
      )
