-- ===== src/RateLimiter.antt =====
-- internal/adapters/http/ratelimit.go: the fixed-window limiter, keyed by client IP. Times and
-- durations are in nanoseconds; `nowFn` is an argument of each call.
pub mod Quota
pub mod Cleanup
pub mod Retry
pub mod ClientIp
pub mod Spoofed
pub mod Ticks
use talk_go.Prelude.{
  Bool, List, Text, [], below, false, if◌then◌else◌, is_zero, leb, length, ltb, nat_eq, none, some,
  text_eq, true, ℕ, ℤ, ◌*◌, ◌+◌, ◌-◌, ◌/◌, ◌∷◌,
}
use talk_go.Prelude.Dict.{Dict, lookup, insert}

pub record Bucket : Type 0 where
  pub count : ℕ
  pub window_start : ℕ

pub record RateLimiter : Type 0 where
  pub buckets : Dict Text Bucket
  pub limit : ℤ
  pub window : ℕ

abbrev pub new_rate_limiter : ℤ → ℕ → RateLimiter
new_rate_limiter limit window = record { buckets = []; limit = limit; window = window }

abbrev pub second : ℕ
second = 1000000000

-- `int(remaining.Seconds())`, at least 1.
unfoldable pub retry_after : ℕ → ℕ
retry_after remaining = let s = remaining / second in if ltb s 1 then 1 else s

abbrev pub Verdict : Type 0
Verdict = RateLimiter × Bool × ℕ

abbrev pub put : RateLimiter → Text → Bucket → RateLimiter
put rl ip b = record rl { buckets = insert ip b rl.buckets }

-- An IP that has a bucket.
unfoldable pub allow_known : RateLimiter → Text → ℕ → Bucket → Verdict
unfolding retry_after
allow_known rl ip now b =
    if leb (b.window_start + rl.window) now
    then (put rl ip (record { count = 1; window_start = now }), true, 0)
    else if below b.count rl.limit
    then (put rl ip (record b { count = b.count + 1 }), true, 0)
    else (rl, false, retry_after (b.window_start + rl.window - now))

unfoldable pub allow : RateLimiter → Text → ℕ → Verdict
unfolding allow_known
allow rl ip now = if is_zero rl.limit then (rl, true, 0) else elim (lookup ip rl.buckets) [
  | none ↦ (put rl ip (record { count = 1; window_start = now }), true, 0)
  | some b ↦ allow_known rl ip now b
]

-- The windows that started more than two windows before `now`.
unfoldable pub stale : ℕ → ℕ → Bucket → Bool
stale window now b = ltb (b.window_start + 2 * window) now

unfoldable pub sweep : ℕ → ℕ → Dict Text Bucket → Dict Text Bucket
unfolding stale
sweep window now [] = []
sweep window now ((ip, b) ∷ bs) =
    let rest = sweep window now bs in if stale window now b then rest else (ip, b) ∷ rest

unfoldable pub cleanup : RateLimiter → ℕ → RateLimiter
cleanup rl now = record rl { buckets = sweep rl.window now rl.buckets }

unfoldable pub bucket_count : RateLimiter → ℕ
bucket_count rl = length rl.buckets

-- What a sequence of requests, an IP and a time each, is told.
unfoldable pub decisions : RateLimiter → List (Text × ℕ) → List (Bool × ℕ)
decisions rl [] = []
decisions rl ((ip, now) ∷ rs) =
    let (rl', granted, after) = allow rl ip now in (granted, after) ∷ decisions rl' rs

-- A request, and a tick of the ticker of `StartCleanup`.
pub data Event : Type 0 where
  asks : Text → ℕ → Event
  ticks : ℕ → Event

-- The requests' answers, while the goroutine of `StartCleanup` runs.
unfoldable pub answers : RateLimiter → List Event → List (Bool × ℕ)
answers rl [] = []
answers rl (asks ip now ∷ es) =
    let (rl', granted, after) = allow rl ip now in (granted, after) ∷ answers rl' es
answers rl (ticks now ∷ es) = answers (cleanup rl now) es
