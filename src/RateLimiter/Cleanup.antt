-- ===== src/RateLimiter/Cleanup.antt =====
-- The background cleanup cannot be noticed by any client.
use talk_go.Prelude.{
  Bool-cases, List, Option, Option-cases, Text, [], ap, arith, below, if◌then◌else◌, inl, inr,
  is_zero, leb, nat_eq, none, refl, some, subst, sym, text_eq, ℕ, ℤ, ◌+◌, ◌∙◌, ◌∷◌, ◌≡◌, ◌≤◌, ◌⊎◌,
}
use talk_go.Prelude.Dict.{UniqueKeys, lookup, lookup-insert, Dict}
use talk_go.RateLimiter.Quota.{limit-allow, window-allow, allow_other}
use talk_go.RateLimiter.{RateLimiter, Bucket, allow, decisions, cleanup, sweep, stale}

abbrev pub AgreeAt : ℕ → RateLimiter → RateLimiter → Text → Type 0
AgreeAt now rl rl' ip =
    (lookup ip rl.buckets ≡ lookup ip rl'.buckets)
    ⊎ ((lookup ip rl.buckets ≡ none)
        × ((b : Bucket) × (lookup ip rl'.buckets ≡ some b) × (b.window_start + rl'.window ≤ now)))

-- Two limiters that agree, except that the left one may have forgotten windows that are over.
pub record Agree (now : ℕ) (rl rl' : RateLimiter) : Type 0 where
  pub same_limit : rl.limit ≡ rl'.limit
  pub same_window : rl.window ≡ rl'.window
  pub buckets : (ip : Text) → AgreeAt now rl rl' ip

-- The bucket of a client after its request.
abbrev bucket_after : ℕ → ℤ → ℕ → Option Bucket → Option Bucket
bucket_after now limit window none =
    if is_zero limit then none else some (record { count = 1; window_start = now })
bucket_after now limit window (some b) =
    if is_zero limit
    then some b
    else if leb (b.window_start + window) now
    then some (record { count = 1; window_start = now })
    else if below b.count limit
    then some (record b { count = b.count + 1 })
    else some b

lookup-allow :
    (rl : RateLimiter) (ip : Text) (now : ℕ)
    → lookup ip (allow rl ip now).0.buckets
      ≡ bucket_after now rl.limit rl.window (lookup ip rl.buckets)
unfolding allow
lookup-allow rl ip now = elim (Option-cases (lookup ip rl.buckets)) [
  | inl e ↦
      ground (arith, lookup-insert ip ip (record { count = 1; window_start = now }) rl.buckets)
  | inr (b, e) ↦ ground (
    arith,
    lookup-insert ip ip (record { count = 1; window_start = now }) rl.buckets,
    lookup-insert ip ip (record b { count = b.count + 1 }) rl.buckets,
  )
]

module _ (now : ℕ) (rl rl' : RateLimiter) (ip : Text) (a : Agree now rl rl') where
  Agree-verdict :
      ((allow rl ip now).1 ≡ (allow rl' ip now).1) × ((allow rl ip now).2 ≡ (allow rl' ip now).2)
  unfolding allow
  Agree-verdict = ground (arith, a.same_limit, a.same_window, a.buckets ip)

  Agree-own : AgreeAt now (allow rl ip now).0 (allow rl' ip now).0 ip
  Agree-own =
      rw
        (
          lookup-allow rl ip now,
          lookup-allow rl' ip now,
          window-allow rl' ip now,
          a.same_limit,
          a.same_window,
        )
        (elim (a.buckets ip) [
          | inl e ↦ inl (ap (bucket_after now rl'.limit rl'.window) e)
          | inr (gone, (b, held, over)) ↦
              rw (gone, held)
                (elim (Bool-cases (is_zero rl'.limit)) [
                  | inl off ↦ rw off (inr (refl, (b, refl, over)))
                  | inr on ↦ rw on (inl (ground arith))
                ])
        ])

  Agree-allow : Agree now (allow rl ip now).0 (allow rl' ip now).0
  Agree-allow = record {
    same_limit = limit-allow rl ip now ∙ a.same_limit ∙ sym (limit-allow rl' ip now);
    same_window = window-allow rl ip now ∙ a.same_window ∙ sym (window-allow rl' ip now);
    buckets = λ j. elim (text_eq.dec ip j) [
      | yes same ↦ subst (λ k. AgreeAt now (allow rl ip now).0 (allow rl' ip now).0 k) same own
      | no other ↦
          rw
            (
              allow_other rl j ip now (ground arith),
              allow_other rl' j ip now (ground arith),
              window-allow rl' ip now,
            )
            (a.buckets j)
    ];
  }
    where
      own : AgreeAt now (allow rl ip now).0 (allow rl' ip now).0 ip
      own = Agree-own

Agree-later :
    {now later : ℕ} {rl rl' : RateLimiter} → now ≤ later → Agree now rl rl' → Agree later rl rl'
Agree-later h a = record {
  same_limit = a.same_limit;
  same_window = a.same_window;
  buckets = λ ip. elim (a.buckets ip) [
    | inl e ↦ inl e
    | inr (gone, (b, held, over)) ↦ inr (gone, (b, held, omega arith))
  ];
}

-- Requests whose times do not go back, from `now` on.
abbrev pub From : ℕ → List (Text × ℕ) → Type 0
From now [] = Unit {0}
From now ((ip, t) ∷ rs) = (now ≤ t) × From t rs

Agree-decisions :
    (now : ℕ) (rl rl' : RateLimiter) (rs : List (Text × ℕ))
    → From now rs
    → Agree now rl rl'
    → decisions rl rs ≡ decisions rl' rs
unfolding decisions
Agree-decisions now rl rl' [] f a = refl
Agree-decisions now rl rl' ((ip, t) ∷ rs) f a =
    let b = Agree-later f.0 a in
    let same = Agree-verdict t rl rl' ip b in
    let rest =
      Agree-decisions t (allow rl ip t).0 (allow rl' ip t).0 rs f.1 (Agree-allow t rl rl' ip b) in
    cc (same.0, same.1, rest)

sweep_absent :
    (window now : ℕ) (bs : Dict Text Bucket) (ip : Text)
    → lookup ip bs ≡ none
    → lookup ip (sweep window now bs) ≡ none
unfolding sweep lookup
sweep_absent window now [] ip h = refl
sweep_absent window now ((j, b) ∷ bs) ip h = ground (arith, sweep_absent window now bs ip)

lookup-sweep :
    (window now : ℕ) (bs : Dict Text Bucket) (ip : Text)
    → UniqueKeys bs
    → (lookup ip (sweep window now bs) ≡ lookup ip bs)
      ⊎ ((lookup ip (sweep window now bs) ≡ none)
          × ((b : Bucket) × (lookup ip bs ≡ some b) × (b.window_start + window ≤ now)))
unfolding sweep lookup
lookup-sweep window now [] ip u = inl refl
lookup-sweep window now ((j, b) ∷ bs) ip u = elim (text_eq.dec j ip) [
  | yes same ↦ elim (Bool-cases (stale window now b)) [
    | inl old ↦ inr (ground (arith, sweep_absent window now bs ip), (b, ground arith, ground arith))
    | inr fresh ↦ inl (ground arith)
  ]
  | no other ↦ ground (arith, lookup-sweep window now bs ip u.1)
]

-- Removing the stale buckets at some time changes no answer to any later requests.
pub decisions-cleanup :
    (rl : RateLimiter) (now : ℕ) (rs : List (Text × ℕ))
    → UniqueKeys rl.buckets
    → From now rs
    → decisions (cleanup rl now) rs ≡ decisions rl rs
unfolding cleanup
decisions-cleanup rl now rs u f = Agree-decisions now (cleanup rl now) rl rs f (record {
  same_limit = refl;
  same_window = refl;
  buckets = λ ip. lookup-sweep rl.window now rl.buckets ip u;
})
