-- ===== src/RateLimiter/ClientIp.antt =====
-- `clientIP` of internal/adapters/http/ratelimit.go, with the functions of the standard library that
-- it calls. White space beyond ASCII is not trimmed.
use talk_go.Prelude.{
  Bool, Option, Text, [], contains, if◌then◌else◌, leb, nat_eq, none, not, some, text_eq, ℕ, ◌&&◌,
  ◌==◌, ◌||◌, ◌∷◌,
}

-- The headers X-Forwarded-For and X-Real-IP, and the address of the connection.
pub record Request : Type 0 where
  pub forwarded : Text
  pub real_ip : Text
  pub remote_addr : Text

-- The text before the first separator, and after it.
unfoldable pub cut : ℕ → Text → Option (Text × Text)
cut sep [] = none
cut sep (c ∷ cs) =
    let rest = cut sep cs in
    if c == sep then some ([], cs) else elim rest [ none ↦ none | some (a, b) ↦ some (c ∷ a, b) ]

-- The text before the last colon, and after it.
unfoldable pub cut_last : ℕ → Text → Option (Text × Text)
cut_last sep [] = none
cut_last sep (c ∷ cs) = elim (cut_last sep cs) [
  | some (a, b) ↦ some (c ∷ a, b)
  | none ↦ if c == sep then some ([], cs) else none
]

abbrev pub is_space : ℕ → Bool
is_space c = c == b' ' || (leb 9 c && leb c 13)

unfoldable pub trim_left : Text → Text
trim_left [] = []
trim_left (c ∷ cs) = let rest = trim_left cs in if is_space c then rest else c ∷ cs

unfoldable pub trim_right : Text → Text
trim_right [] = []
trim_right (c ∷ cs) = let rest = trim_right cs in if is_space c && rest == [] then [] else c ∷ rest

-- `strings.TrimSpace`
unfoldable pub trim_space : Text → Text
trim_space t = trim_right (trim_left t)

-- `net.SplitHostPort`, without the port.
unfoldable pub split_host_port : Text → Option Text
split_host_port addr = elim (cut_last b':' addr) [
  | none ↦ none
  | some (host, port) ↦ elim addr [
    | [] ↦ none
    | c ∷ cs ↦
        if c == b'['
        then (elim (cut b']' cs) [
          | none ↦ none
          | some (inner, rest) ↦
              if rest == b':' ∷ port && not (contains b'[' cs) && not (contains b']' rest)
              then some inner
              else none
        ])
        else if contains b':' host || contains b'[' (c ∷ cs) || contains b']' (c ∷ cs)
        then none
        else some host
  ]
]

unfoldable pub client_ip : Request → Text
client_ip r =
    if not (r.forwarded == [])
    then (elim (cut b',' r.forwarded) [
      | some (first, others) ↦ trim_space first
      | none ↦ trim_space r.forwarded
    ])
    else if not (r.real_ip == [])
    then trim_space r.real_ip
    else elim (split_host_port r.remote_addr) [ none ↦ r.remote_addr | some host ↦ host ]
