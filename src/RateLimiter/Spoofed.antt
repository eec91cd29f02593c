-- ===== src/RateLimiter/Spoofed.antt =====
-- What the limiter makes of addresses that a client makes up.
use talk_go.Prelude.{
  All, Bool-cases, Distinct, List, Text, [], ap, arith, contains, false, inl, inr, map, nat_eq,
  none, refl, text_eq, true, ℕ, ◌==◌, ◌∷◌, ◌≡◌, ◌≢◌,
}
use talk_go.Prelude.Dict.{lookup, lookup-insert}
use talk_go.RateLimiter.{RateLimiter, allow, decisions}
use talk_go.RateLimiter.ClientIp.{cut, is_space, trim_left, trim_right, trim_space, client_ip}

-- A text that is not empty, without commas and white space.
abbrev pub Plain : Text → Type 0
Plain t = (t ≢ []) × All (λ c. (c ≢ b',') × (is_space c ≡ false)) t

abbrev Inner : Text → Type 0
Inner = All (λ c. (c ≢ b',') × (is_space c ≡ false))

cut_plain : (t : Text) → Inner t → cut b',' t ≡ none
unfolding cut
cut_plain [] h = refl
cut_plain (c ∷ cs) h =
    let no_comma = h.0.0 in
    elim (Bool-cases (c == b',')) [
      | inl comma ↦ absurd (ground (arith, no_comma))
      | inr other ↦ rw (other, cut_plain cs h.1) refl
    ]

trim_left_plain : (t : Text) → Inner t → trim_left t ≡ t
unfolding trim_left
trim_left_plain [] h = refl
trim_left_plain (c ∷ cs) h = rw h.0.1 refl

trim_right_plain : (t : Text) → Inner t → trim_right t ≡ t
unfolding trim_right
trim_right_plain [] h = refl
trim_right_plain (c ∷ cs) h = rw h.0.1 (ap (λ (u : Text). c ∷ u) (trim_right_plain cs h.1))

client_ip-Plain :
    (t real_ip remote_addr : Text)
    → Plain t
    → client_ip (record { forwarded = t; real_ip = real_ip; remote_addr = remote_addr }) ≡ t
unfolding client_ip trim_space
client_ip-Plain t real_ip remote_addr (ne, inner) =
    let full : (t == []) ≡ false = ground (arith, ne) in
    rw (full, cut_plain t inner, trim_left_plain t inner) (trim_right_plain t inner)

-- A request whose address is new is let through, and the others stay new.
allow_new :
    (rl : RateLimiter) (ip : Text) (now : ℕ)
    → lookup ip rl.buckets ≡ none
    → ((allow rl ip now).1 ≡ true)
      × ((j : Text)
          → ip ≢ j
          → lookup j rl.buckets ≡ none
          → lookup j (allow rl ip now).0.buckets ≡ none)
unfolding allow
allow_new rl ip now new = (
  ground arith,
  λ j other h.
      ground (arith, lookup-insert ip j (record { count = 1; window_start = now }) rl.buckets),
)

-- Requests at the same address, each with its own value of the header.
abbrev pub forged : Text → List (Text × ℕ) → List (Text × ℕ)
forged remote_addr [] = []
forged remote_addr ((value, now) ∷ rs) =
    (client_ip (record { forwarded = value; real_ip = []; remote_addr = remote_addr }), now)
    ∷ forged remote_addr rs

abbrev pub New : RateLimiter → List (Text × ℕ) → Type 0
New rl = All (λ (value, _). Plain value × (lookup value rl.buckets ≡ none))

not_there :
    (ip value : Text) (values : List Text)
    → contains ip (value ∷ values) ≡ false
    → (ip ≢ value) × (contains ip values ≡ false)
unfolding contains
not_there ip value values h = (λ e. ground arith, ground arith)

still_New :
    (rl : RateLimiter) (ip : Text) (now : ℕ) (rs : List (Text × ℕ))
    → lookup ip rl.buckets ≡ none
    → contains ip (map (λ (value, _). value) rs) ≡ false
    → New rl rs
    → New (allow rl ip now).0 rs
unfolding contains
still_New rl ip now [] new away h = tt
still_New rl ip now ((value, at) ∷ rs) new away h =
    let (other, rest) = not_there ip value (map (λ (v, _). v) rs) away in
    ((h.0.0, (allow_new rl ip now new).1 value other h.0.1), still_New rl ip now rs new rest h.1)

pub forged-decisions :
    (rl : RateLimiter) (remote_addr : Text) (rs : List (Text × ℕ))
    → Distinct (map (λ (value, _). value) rs)
    → New rl rs
    → All (λ (granted, _). granted ≡ true) (decisions rl (forged remote_addr rs))
unfolding decisions
forged-decisions rl remote_addr [] once h = tt
forged-decisions rl remote_addr ((value, now) ∷ rs) once h =
    let ip = client_ip-Plain value [] remote_addr h.0.0 in
    rw ip (
      (allow_new rl value now h.0.1).0,
      forged-decisions (allow rl value now).0 remote_addr rs once.1
          (still_New rl value now rs h.0.1 once.0 h.1),
    )
