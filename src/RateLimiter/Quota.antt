-- ===== src/RateLimiter/Quota.antt =====
-- How many requests the limiter lets through.
use talk_go.Prelude.{
  All, List, Option-cases, Text, [], arith, dec_lt, false, if◌then◌else◌, inl, inr, min, nat_eq,
  pos, some, subst, sym, text_eq, true, ℕ, ◌&&◌, ◌+◌, ◌-◌, ◌<◌, ◌==◌, ◌∷◌, ◌≡◌, ◌≤◌,
}
use talk_go.Prelude.Dict.{lookup, lookup-insert}
use talk_go.RateLimiter.{RateLimiter, Bucket, allow}

-- How many requests of `ip` a sequence holds, and how many of them are allowed.
pub requests : Text → List (Text × ℕ) → ℕ
requests ip [] = 0
requests ip ((j, now) ∷ rs) = (if j == ip then 1 else 0) + requests ip rs

unfoldable pub allowed : RateLimiter → Text → List (Text × ℕ) → ℕ
allowed rl ip [] = 0
allowed rl ip ((j, now) ∷ rs) =
    (if j == ip && (allow rl j now).1 then 1 else 0) + allowed (allow rl j now).0 ip rs

abbrev pub Before : ℕ → List (Text × ℕ) → Type 0
Before end = All (λ (_, now). now < end)

pub limit-allow : (rl : RateLimiter) (ip : Text) (now : ℕ) → (allow rl ip now).0.limit ≡ rl.limit
unfolding allow
limit-allow rl ip now = ground arith

pub window-allow : (rl : RateLimiter) (ip : Text) (now : ℕ) → (allow rl ip now).0.window ≡ rl.window
unfolding allow
window-allow rl ip now = ground arith

-- A request of another IP leaves the bucket alone.
pub allow_other :
    (rl : RateLimiter) (ip j : Text) (now : ℕ)
    → (j == ip) ≡ false
    → lookup ip (allow rl j now).0.buckets ≡ lookup ip rl.buckets
unfolding allow
allow_other rl ip j now h = grind (arith, lookup-insert)

module _ (rl : RateLimiter) (ip : Text) (now limit : ℕ) (b : Bucket)
    (limited : rl.limit ≡ pos limit) (positive : 0 < limit) (known : lookup ip rl.buckets ≡ some b)
    (open_window : now < b.window_start + rl.window) where
  allow_room :
      b.count < limit
      → ((allow rl ip now).1 ≡ true)
        × (lookup ip (allow rl ip now).0.buckets ≡ some (record b { count = b.count + 1 }))
  unfolding allow
  allow_room h = ground (arith, lookup-insert ip ip (record b { count = b.count + 1 }) rl.buckets)

  allow_spent :
      limit ≤ b.count
      → ((allow rl ip now).1 ≡ false) × (lookup ip (allow rl ip now).0.buckets ≡ some b)
  unfolding allow
  allow_spent h = ground arith

-- Within a window, what is left of the quota is given out, and no more.
abbrev Within : Text → ℕ → List (Text × ℕ) → Type 0
Within ip limit rs =
    (rl : RateLimiter) (b : Bucket)
    → rl.limit ≡ pos limit
    → lookup ip rl.buckets ≡ some b
    → b.count ≤ limit
    → Before (b.window_start + rl.window) rs
    → allowed rl ip rs ≡ min (limit - b.count) (requests ip rs)

Within-same :
    (ip : Text) (limit now : ℕ) (rs : List (Text × ℕ))
    → 0 < limit
    → Within ip limit rs
    → Within ip limit ((ip, now) ∷ rs)
unfolding allowed requests
Within-same ip limit now rs h ih rl b e p c t = elim (dec_lt b.count limit) [
  | yes room ↦ ground (
    arith,
    ih (allow rl ip now).0 (record b { count = b.count + 1 }),
    limit-allow rl ip now,
    window-allow rl ip now,
    allow_room rl ip now limit b e h p t.0 room,
  )
  | no spent ↦ ground (
    arith,
    ih (allow rl ip now).0 b,
    limit-allow rl ip now,
    window-allow rl ip now,
    allow_spent rl ip now limit b e h p t.0 (omega arith),
  )
]

within : (ip : Text) (limit : ℕ) (rs : List (Text × ℕ)) → 0 < limit → Within ip limit rs
unfolding allowed requests
within ip limit [] h rl b e p c t = omega arith
within ip limit ((j, now) ∷ rs) h rl b e p c t = elim (text_eq.dec j ip) [
  | yes same ↦
      subst
        (λ k. allowed rl ip ((k, now) ∷ rs) ≡ min (limit - b.count) (requests ip ((k, now) ∷ rs)))
        (sym same) (Within-same ip limit now rs h (within ip limit rs h) rl b e p c t)
  | no other ↦ ground (
    arith,
    within ip limit rs h (allow rl j now).0 b,
    limit-allow rl j now,
    window-allow rl j now,
    allow_other rl ip j now,
  )
]

allow_opens :
    (rl : RateLimiter) (ip : Text) (now limit : ℕ)
    → rl.limit ≡ pos limit
    → 0 < limit
    → ((b : Bucket) → lookup ip rl.buckets ≡ some b → b.window_start + rl.window ≤ now)
    → ((allow rl ip now).1 ≡ true)
      × (lookup ip (allow rl ip now).0.buckets ≡ some (record { count = 1; window_start = now }))
unfolding allow
allow_opens rl ip now limit e p fresh = elim (Option-cases (lookup ip rl.buckets)) [
  | inl new ↦
      ground (arith, lookup-insert ip ip (record { count = 1; window_start = now }) rl.buckets)
  | inr (b, old) ↦ ground (
    arith,
    fresh b old,
    lookup-insert ip ip (record { count = 1; window_start = now }) rl.buckets,
  )
]

-- From the request that opens a window of `ip` (it has no bucket, or its window is over), and until
-- that window ends, exactly as many requests of `ip` are allowed as were made, up to the limit,
-- whatever other clients send in between.
pub window_quota :
    (rl : RateLimiter) (ip : Text) (now limit : ℕ) (rs : List (Text × ℕ))
    → rl.limit ≡ pos limit
    → 0 < limit
    → ((b : Bucket) → lookup ip rl.buckets ≡ some b → b.window_start + rl.window ≤ now)
    → Before (now + rl.window) rs
    → allowed rl ip ((ip, now) ∷ rs) ≡ min limit (1 + requests ip rs)
unfolding allowed
window_quota rl ip now limit rs e p fresh t = ground (
  arith,
  allow_opens rl ip now limit e p fresh,
  limit-allow rl ip now,
  window-allow rl ip now,
  within ip limit rs p (allow rl ip now).0 (record { count = 1; window_start = now }),
)
