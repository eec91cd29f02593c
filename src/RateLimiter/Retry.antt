-- ===== src/RateLimiter/Retry.antt =====
-- The advice in the `Retry-After` header.
use talk_go.Prelude.{
  Text, arith, dec_lt, false, inl, inr, nat_eq, some, text_eq, true, ℕ, ◌%◌, ◌*◌, ◌+◌, ◌-◌, ◌<◌,
  ◌≡◌, ◌≤◌, ◌⊎◌,
}
use talk_go.Prelude.Dict.{lookup}
use talk_go.RateLimiter.{RateLimiter, Bucket, allow, second}

-- A client whose request is refused.
module _ (rl : RateLimiter) (ip : Text) (now : ℕ) (b : Bucket)
    (known : lookup ip rl.buckets ≡ some b) (refused : (allow rl ip now).1 ≡ false) where
  -- What is left of the window when a request is refused.
  abbrev remaining : ℕ
  remaining = b.window_start + rl.window - now

  refused_open : now < b.window_start + rl.window
  unfolding allow
  refused_open = ground arith

  refused_same : (allow rl ip now).0 ≡ rl
  unfolding allow
  refused_same = ground arith

  -- A refusal changes nothing, and the delay that the client is told is at least one second: it is
  -- exactly one, or no longer than what is left of the window.
  pub refused_advice :
      ((allow rl ip now).0 ≡ rl)
      × (1 ≤ (allow rl ip now).2)
      × (((allow rl ip now).2 ≡ 1) ⊎ ((allow rl ip now).2 * second ≤ remaining))
  unfolding allow
  refused_advice = (refused_same, ground arith, advice)
    where
      advice : ((allow rl ip now).2 ≡ 1) ⊎ ((allow rl ip now).2 * second ≤ remaining)
      advice = elim (dec_lt second remaining) [
        | yes lt ↦ inr (ground arith)
        | no ge ↦ inl (ground arith)
      ]

  -- From the end of the window on, the client is allowed again.
  pub refused_until :
      (later : ℕ) → b.window_start + rl.window ≤ later → (allow rl ip later).1 ≡ true
  unfolding allow
  refused_until later h = ground arith

  -- The advice is too early whenever what is left of the window is above a second and no whole
  -- number of seconds: a client that waits for exactly the advised delay is refused again.
  pub early_retry :
      second < remaining
      → ¬ (remaining % second ≡ 0)
      → (allow rl ip (now + (allow rl ip now).2 * second)).1 ≡ false
  unfolding allow
  early_retry h odd = ground arith
