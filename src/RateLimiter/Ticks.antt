-- ===== src/RateLimiter/Ticks.antt =====
-- The limiter while its buckets are cleaned up.
use talk_go.Prelude.{
  Bool, List, Option-cases, Text, [], ap, arith, inl, inr, nat_eq, none, refl, text_eq, ℕ, ◌+◌, ◌∙◌,
  ◌∷◌, ◌≡◌, ◌≤◌,
}
use talk_go.Prelude.Dict.{Dict, UniqueKeys, lookup, insert-UniqueKeys}
use talk_go.RateLimiter.{
  RateLimiter, Bucket, Event, asks, ticks, allow, allow_known, sweep, cleanup, decisions, answers,
}
use talk_go.RateLimiter.Cleanup.{From, decisions-cleanup}

unfoldable pub asked : List Event → List (Text × ℕ)
asked [] = []
asked (asks ip now ∷ es) = (ip, now) ∷ asked es
asked (ticks now ∷ es) = asked es

-- The times do not go back.
abbrev pub Onward : ℕ → List Event → Type 0
Onward since [] = Unit {0}
Onward since (asks ip now ∷ es) = (since ≤ now) × Onward now es
Onward since (ticks now ∷ es) = (since ≤ now) × Onward now es

still_absent :
    (window now : ℕ) (ip : Text) (bs : Dict Text Bucket)
    → lookup ip bs ≡ none
    → lookup ip (sweep window now bs) ≡ none
unfolding sweep lookup
still_absent window now ip [] h = refl
still_absent window now ip ((j, b) ∷ bs) h = ground (arith, still_absent window now ip bs)

sweep-UniqueKeys :
    (window now : ℕ) (bs : Dict Text Bucket) → UniqueKeys bs → UniqueKeys (sweep window now bs)
unfolding sweep
sweep-UniqueKeys window now [] u = tt
sweep-UniqueKeys window now ((ip, b) ∷ bs) u =
    ground (arith, sweep-UniqueKeys window now bs u.1, still_absent window now ip bs)

allow-UniqueKeys :
    (rl : RateLimiter) (ip : Text) (now : ℕ)
    → UniqueKeys rl.buckets
    → UniqueKeys (allow rl ip now).0.buckets
unfolding allow allow_known
allow-UniqueKeys rl ip now u =
    let opened : Bucket = record { count = 1; window_start = now } in
    elim (Option-cases (lookup ip rl.buckets)) [
      | inl new ↦ ground (arith, insert-UniqueKeys ip opened rl.buckets)
      | inr (b, old) ↦ ground (
        arith,
        old,
        insert-UniqueKeys ip opened rl.buckets,
        insert-UniqueKeys ip (record b { count = b.count + 1 }) rl.buckets,
      )
    ]

earlier_start : (since now : ℕ) (rs : List (Text × ℕ)) → since ≤ now → From now rs → From since rs
earlier_start since now [] h f = tt
earlier_start since now ((ip, t) ∷ rs) h f = (omega (arith, h, f.0), f.1)

later_requests : (since : ℕ) (es : List Event) → Onward since es → From since (asked es)
unfolding asked
later_requests since [] h = tt
later_requests since (asks ip now ∷ es) h = (h.0, later_requests now es h.1)
later_requests since (ticks now ∷ es) h =
    earlier_start since now (asked es) h.0 (later_requests now es h.1)

-- The ticks change no answer: a limiter that is cleaned up at any times answers the requests as one
-- that is never cleaned up.
pub answers-decisions :
    (rl : RateLimiter) (since : ℕ) (es : List Event)
    → UniqueKeys rl.buckets
    → Onward since es
    → answers rl es ≡ decisions rl (asked es)
unfolding answers decisions asked cleanup
answers-decisions rl since [] u h = refl
answers-decisions rl since (asks ip now ∷ es) u h =
    ap (λ (l : List (Bool × ℕ)). ((allow rl ip now).1, (allow rl ip now).2) ∷ l)
      (answers-decisions (allow rl ip now).0 now es (allow-UniqueKeys rl ip now u) h.1)
answers-decisions rl since (ticks now ∷ es) u h =
    answers-decisions (cleanup rl now) now es (sweep-UniqueKeys rl.window now rl.buckets u) h.1
    ∙ decisions-cleanup rl now (asked es) u (later_requests now es h.1)
