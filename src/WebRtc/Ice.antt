-- ===== src/WebRtc/Ice.antt =====
-- internal/adapters/webrtc/config.go: the ICE servers.
use mathlib.Core.Path.{ap₂}
use talk_go.Prelude.{
  All, Bool-cases, List, Text, [], ap, arith, if◌then◌else◌, inl, inr, nat_eq, refl, text_eq, txt,
  ℕ, ◌++◌, ◌==◌, ◌∙◌, ◌∷◌, ◌≡◌, ◌≢◌,
}

pub record IceServer : Type 0 where
  pub urls : List Text
  pub username : Text
  pub credential : Text

abbrev pub stun_server : IceServer
stun_server = record {
  urls = txt "stun:stun.l.google.com:19302" ∷ [];
  username = [];
  credential = [];
}

-- DefaultConfig
abbrev pub default_config : List IceServer
default_config = stun_server ∷ []

abbrev pub comma : ℕ
comma = 44

-- `strings.Split` by a separator of one byte. There is always a first piece.
abbrev extend : ℕ → List Text → List Text
extend c [] = (c ∷ []) ∷ []
extend c (piece ∷ pieces) = (c ∷ piece) ∷ pieces

unfoldable pub split : ℕ → Text → List Text
split sep [] = [] ∷ []
split sep (c ∷ cs) = let rest = split sep cs in if c == sep then [] ∷ rest else extend c rest

unfoldable pub build_ice_config : Text → Text → Text → List IceServer
build_ice_config [] user pass = stun_server ∷ []
build_ice_config (c ∷ cs) user pass =
    stun_server ∷ record { urls = split comma (c ∷ cs); username = user; credential = pass } ∷ []

-- The pieces with the separator between them.
abbrev pub join : ℕ → List Text → Text
join sep [] = []
join sep (piece ∷ []) = piece
join sep (piece ∷ next ∷ pieces) = piece ++ sep ∷ join sep (next ∷ pieces)

split_some : (sep : ℕ) (t : Text) → split sep t ≢ []
unfolding split
split_some sep [] e = cc
split_some sep (c ∷ cs) e = elim (Bool-cases (c == sep)) [
  | inl b ↦ ground arith
  | inr b ↦ extend_some c (split sep cs) (ground arith)
]
  where
    extend_some : (c : ℕ) (pieces : List Text) → extend c pieces ≢ []
    extend_some c [] e = cc
    extend_some c (piece ∷ pieces) e = cc

module _ (sep : ℕ) where
  join_separator :
      (pieces : List Text) → pieces ≢ [] → join sep ([] ∷ pieces) ≡ sep ∷ join sep pieces
  join_separator [] ne = absurd (ne refl)
  join_separator (piece ∷ pieces) ne = refl

  join-extend : (c : ℕ) (pieces : List Text) → join sep (extend c pieces) ≡ c ∷ join sep pieces
  join-extend c [] = refl
  join-extend c (piece ∷ []) = refl
  join-extend c (piece ∷ next ∷ pieces) = refl

  join-split : (t : Text) → join sep (split sep t) ≡ t
  unfolding split
  join-split [] = refl
  join-split (c ∷ cs) = elim (Bool-cases (c == sep)) [
    | inl b ↦
        let same : sep ≡ c = ground arith in
        rw b (join_separator (split sep cs) (split_some sep cs) ∙ ap₂ ◌∷◌ same (join-split cs))
    | inr b ↦ rw b (join-extend c (split sep cs) ∙ ap (λ (t : Text). c ∷ t) (join-split cs))
  ]

  -- No piece has the separator in it.
  abbrev pub Clean : List Text → Type 0
  Clean = All (All (λ c. c ≢ sep))

  extend-Clean : (c : ℕ) (pieces : List Text) → c ≢ sep → Clean pieces → Clean (extend c pieces)
  extend-Clean c [] ne h = ((ne, tt), tt)
  extend-Clean c (piece ∷ pieces) ne h = ((ne, h.0), h.1)

  split-Clean : (t : Text) → Clean (split sep t)
  unfolding split
  split-Clean [] = (tt, tt)
  split-Clean (c ∷ cs) = elim (Bool-cases (c == sep)) [
    | inl b ↦ rw b (tt, split-Clean cs)
    | inr b ↦ rw b (extend-Clean c (split sep cs) (ground arith) (split-Clean cs))
  ]

-- The STUN server comes first. Without TURN addresses it is alone; with them there is one more
-- server, with the user and the password, and its addresses have no comma in them and are, with
-- commas between them, the text that was given.
pub build_ice_config-split :
    (turn_urls user pass : Text)
    → (turn_urls ≡ [] → build_ice_config turn_urls user pass ≡ default_config)
      × (turn_urls ≢ []
          → (us : List Text) × (build_ice_config turn_urls user pass
              ≡ stun_server ∷ record { urls = us; username = user; credential = pass } ∷ [])
            × join comma us ≡ turn_urls
            × Clean comma us)
unfolding build_ice_config
build_ice_config-split [] user pass = (λ e. refl, λ ne. absurd (ne refl))
build_ice_config-split (c ∷ cs) user pass = (
  λ e. cc,
  λ ne. (split comma (c ∷ cs), refl, join-split comma (c ∷ cs), split-Clean comma (c ∷ cs)),
)
