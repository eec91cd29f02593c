-- ===== src/Http/RoomQuota.antt =====
-- How many rooms a client can create.
use talk_go.RateLimiter.Quota.{
  window_quota, Before, allowed, limit-allow, allow_other, window-allow,
}
use talk_go.Prelude.{
  All, Bool, List, Option, Text, [], arith, false, if◌then◌else◌, nat_eq, none, pos, refl, some,
  subst, sym, text_eq, true, ℕ, ℕ_discrete, ◌&&◌, ◌+◌, ◌<◌, ◌==◌, ◌∙◌, ◌∷◌, ◌≡◌, ◌≤◌,
}
use talk_go.RateLimiter.{RateLimiter, allow}
use talk_go.Service.State.{Service}
use talk_go.Http.{
  Response, delete_room_handler, get_room_by_short_code_handler, ws_handler, FeedbackRequest,
  feedback_handler, middleware, find_error, Ports,
}
use talk_go.Prelude.Dict.{lookup}
use talk_go.Http.Serve.{
  Server, Call, get_health, delete_room, get_room_by_code, get_ws, post_feedback, post_rooms, serve,
  serve_all, limited, health_handler,
}

-- How many responses 201 the client gets.
pub created : Text → List (Text × Response) → ℕ
created ip [] = 0
created ip ((j, resp) ∷ rs) = (if j == ip && resp.status == 201 then 1 else 0) + created ip rs

-- The requests that the limiter of rooms sees.
abbrev pub creating : List (Text × ℕ × Call) → List (Text × ℕ)
creating [] = []
creating ((ip, now, post_rooms req) ∷ cs) = (ip, now) ∷ creating cs
creating (_ ∷ cs) = creating cs

delete_not_created : (s : Service) (id : Text) → (delete_room_handler s id).0.status == 201 ≡ false
unfolding delete_room_handler
delete_not_created s id = ground arith

find_not_created :
    (s : Service) (code : Text) → (get_room_by_short_code_handler s code).status == 201 ≡ false
unfolding get_room_by_short_code_handler find_error
find_not_created s code = ground arith

ws_not_created : (b : Bool) (s : Service) (id : Text) → (ws_handler b s id).status == 201 ≡ false
unfolding ws_handler
ws_not_created b s id = ground arith

feedback_not_created :
    (req : Option FeedbackRequest) → (feedback_handler req).0.status == 201 ≡ false
unfolding feedback_handler ℕ_discrete
feedback_not_created none = refl
feedback_not_created (some req) = ground arith

-- What a limiter that may be nil answers is its 429, or what the handler answers.
limited_not_created :
    {S : Type 0} (rl : Option RateLimiter) (ip : Text) (now : ℕ) (s : S) (next : Response × S)
    → next.0.status == 201 ≡ false
    → (limited rl ip now s next).1.status == 201 ≡ false
unfolding limited middleware
limited_not_created none ip now s next h = h
limited_not_created (some rl) ip now s next h = ground arith

-- Only a call that the limiter allows is answered with 201.
limited_created :
    {S : Type 0} (rl : RateLimiter) (ip : Text) (now : ℕ) (s : S) (next : Response × S)
    → (limited (some rl) ip now s next).0 ≡ some (allow rl ip now).0
      × ((limited (some rl) ip now s next).1.status == 201 ≡ true → (allow rl ip now).1 ≡ true)
unfolding limited middleware
limited_created rl ip now s next = (ground arith, λ h. ground arith)

-- A call that creates no room.
abbrev IsOther : Call → Type 0
IsOther (post_rooms req) = ⊥
IsOther _ = Unit {0}

module _ (ports : Ports) where
  other_call :
      (srv : Server) (ip : Text) (now : ℕ) (call : Call)
      → IsOther call
      → ((serve ports srv ip now call).0.status == 201 ≡ false)
        × ((serve ports srv ip now call).1.room_limiter ≡ srv.room_limiter)
  unfolding serve health_handler ℕ_discrete
  other_call srv ip now get_health h = (refl, refl)
  other_call srv ip now (delete_room id) h = (delete_not_created srv.service id, refl)
  other_call srv ip now (get_room_by_code code) h = (find_not_created srv.service code, refl)
  other_call srv ip now (post_feedback req) h = (feedback_not_created req, refl)
  other_call srv ip now (post_rooms req) h = absurd h
  other_call srv ip now (get_ws id) h = (
    limited_not_created srv.ws_limiter ip now srv.service _
        (ws_not_created srv.has_hub srv.service id),
    refl,
  )

  room_call :
      (srv : Server) (rl : RateLimiter) (ip : Text) (now : ℕ) (req : Option (Text × Text))
      → srv.room_limiter ≡ some rl
      → ((serve ports srv ip now (post_rooms req)).1.room_limiter ≡ some (allow rl ip now).0)
        × ((serve ports srv ip now (post_rooms req)).0.status == 201 ≡ true
            → (allow rl ip now).1 ≡ true)
  unfolding serve
  room_call srv rl ip now req e = rw e (limited_created rl ip now srv.service _)

  -- The steps of the induction below: a call that creates no room, and one that may.
  abbrev Bounded : Text → List (Text × ℕ × Call) → Type 0
  Bounded ip cs =
      (srv : Server) (rl : RateLimiter)
      → srv.room_limiter ≡ some rl
      → created ip (serve_all ports srv cs) ≤ allowed rl ip (creating cs)

  other_step :
      (ip j : Text) (now : ℕ) (call : Call) (cs : List (Text × ℕ × Call))
      → IsOther call
      → creating ((j, now, call) ∷ cs) ≡ creating cs
      → Bounded ip cs
      → Bounded ip ((j, now, call) ∷ cs)
  unfolding created serve_all
  other_step ip j now call cs h same ih srv rl e =
      let (no_room, kept) = other_call srv j now call h in
      rw same (ground (arith, no_room, ih (serve ports srv j now call).1 rl (kept ∙ e)))

  created-le-allowed : (ip : Text) (cs : List (Text × ℕ × Call)) → Bounded ip cs
  unfolding created serve_all allowed
  created-le-allowed ip [] srv rl e = omega arith
  created-le-allowed ip ((j, now, post_rooms req) ∷ cs) srv rl e =
      let (kept, granted) = room_call srv rl j now req e in
      ground (
        arith,
        granted,
        created-le-allowed ip cs (serve ports srv j now (post_rooms req)).1 (allow rl j now).0 kept,
      )
  created-le-allowed ip ((j, now, get_health) ∷ cs) srv rl e =
      other_step ip j now get_health cs tt refl (created-le-allowed ip cs) srv rl e
  created-le-allowed ip ((j, now, delete_room id) ∷ cs) srv rl e =
      other_step ip j now (delete_room id) cs tt refl (created-le-allowed ip cs) srv rl e
  created-le-allowed ip ((j, now, get_room_by_code code) ∷ cs) srv rl e =
      other_step ip j now (get_room_by_code code) cs tt refl (created-le-allowed ip cs) srv rl e
  created-le-allowed ip ((j, now, post_feedback req) ∷ cs) srv rl e =
      other_step ip j now (post_feedback req) cs tt refl (created-le-allowed ip cs) srv rl e
  created-le-allowed ip ((j, now, get_ws id) ∷ cs) srv rl e =
      other_step ip j now (get_ws id) cs tt refl (created-le-allowed ip cs) srv rl e

-- Requests from `start` on, and before the end of a window that starts then.
abbrev pub During : ℕ → ℕ → List (Text × ℕ) → Type 0
During start window = All (λ (_, now). (start ≤ now) × (now < start + window))

During-Before :
    (start window now : ℕ) (rs : List (Text × ℕ))
    → start ≤ now
    → During start window rs
    → Before (now + window) rs
During-Before start window now [] h d = tt
During-Before start window now ((j, t) ∷ rs) h d =
    (omega (arith, d.0.1), During-Before start window now rs h d.1)

-- A client without a bucket gets at most its quota, in a window's time.
allowed-le-limit :
    (rl : RateLimiter) (ip : Text) (start limit : ℕ) (rs : List (Text × ℕ))
    → rl.limit ≡ pos limit
    → 0 < limit
    → lookup ip rl.buckets ≡ none
    → During start rl.window rs
    → allowed rl ip rs ≤ limit
unfolding allowed
allowed-le-limit rl ip start limit [] e p new d = omega arith
allowed-le-limit rl ip start limit ((j, now) ∷ rs) e p new d = elim (text_eq.dec j ip) [
  | yes same ↦
      let quota =
        window_quota rl ip now limit rs e p (λ b old. absurd (cc (old, new)))
          (During-Before start rl.window now rs d.0.0 d.1) in
      subst (λ k. allowed rl ip ((k, now) ∷ rs) ≤ limit) (sym same) (omega (arith, quota))
  | no other ↦
      let differs : (j == ip) ≡ false = ground arith in
      let rest =
        allowed-le-limit (allow rl j now).0 ip start limit rs (limit-allow rl j now ∙ e) p
          (allow_other rl ip j now differs ∙ new)
          (subst (λ w. During start w rs) (sym (window-allow rl j now)) d.1) in
      ground (arith, rest)
]

-- A client that has no bucket in the limiter of rooms gets at most `limit` responses 201 to requests
-- made within one window's time, whatever it and others ask of the server, if it and the others ask
-- for rooms within that time only.
pub rooms_within_quota :
    (ports : Ports) (srv : Server) (rl : RateLimiter) (ip : Text) (start limit : ℕ)
    (cs : List (Text × ℕ × Call))
    → srv.room_limiter ≡ some rl
    → rl.limit ≡ pos limit
    → 0 < limit
    → lookup ip rl.buckets ≡ none
    → During start rl.window (creating cs)
    → created ip (serve_all ports srv cs) ≤ limit
rooms_within_quota ports srv rl ip start limit cs e p more new d = omega (
  arith,
  created-le-allowed ports ip cs srv rl e,
  allowed-le-limit rl ip start limit (creating cs) p more new d,
)
