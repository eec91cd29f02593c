-- ===== src/Service/Keys.antt =====
-- The keys `roomID + ":" + userID` of the map `lookup`, and the prefix test of `DeleteRoom`.
use talk_go.Prelude.{
  Bool-cases, Text, [], ap, append_assoc, arith, contains, drop, false, inl, inr, ite, length,
  length-append, nat_eq, refl, sym, take, take-append-drop, text_eq, true, ℕ_discrete, ◌++◌, ◌∙◌,
  ◌∷◌, ◌≡◌, ◌≢◌,
}
use talk_go.Service.State.{colon, key_of}
use talk_go.Service.Delete.{has_prefix}

-- The text before the first colon, and the text behind it.
room_part : Text → Text
room_part [] = []
room_part (c ∷ cs) = let rest = room_part cs in ite (ℕ_discrete c colon) [] (c ∷ rest)

user_part : Text → Text
user_part [] = []
user_part (c ∷ cs) = let rest = user_part cs in ite (ℕ_discrete c colon) cs rest

abbrev pub NoColon : Text → Type 0
NoColon room_id = contains colon room_id ≡ false

room_part-key_of :
    (room_id user_id : Text) → NoColon room_id → room_part (key_of room_id user_id) ≡ room_id
unfolding room_part contains
room_part-key_of [] user_id h = ground arith
room_part-key_of (c ∷ cs) user_id h = ground (arith, room_part-key_of cs user_id)

user_part-key_of :
    (room_id user_id : Text) → NoColon room_id → user_part (key_of room_id user_id) ≡ user_id
unfolding user_part contains
user_part-key_of [] user_id h = ground arith
user_part-key_of (c ∷ cs) user_id h = ground (arith, user_part-key_of cs user_id)

-- Room IDs without a colon and users are told apart by their keys.
pub key_of-injective :
    (room room' user user' : Text)
    → NoColon room
    → NoColon room'
    → key_of room user ≡ key_of room' user'
    → (room ≡ room') × (user ≡ user')
key_of-injective room room' user user' h h' e = (
  sym (room_part-key_of room user h) ∙ ap room_part e ∙ room_part-key_of room' user' h',
  sym (user_part-key_of room user h) ∙ ap user_part e ∙ user_part-key_of room' user' h',
)

take-append : (p q : Text) → take (length p) (p ++ q) ≡ p
take-append [] q = refl
take-append (c ∷ p) q = ap (◌∷◌ c) (take-append p q)

-- The entries of a room, of users whose ID is not empty, have the prefix of the room.
pub has_prefix-key_of :
    (room user : Text) → user ≢ [] → has_prefix (room ++ colon ∷ []) (key_of room user) ≡ true
unfolding has_prefix
has_prefix-key_of room [] h = absurd (h refl)
has_prefix-key_of room (c ∷ user) h =
    let e : key_of room (c ∷ user) ≡ (room ++ colon ∷ []) ++ c ∷ user =
      sym (append_assoc room (colon ∷ []) (c ∷ user)) in
    rw e (
      ground (
        arith,
        take-append (room ++ colon ∷ []) (c ∷ user),
        length-append {0} (room ++ colon ∷ []) (c ∷ user),
      ))

-- The entry of a user without an ID has it not.
pub has_prefix-empty_user : (room : Text) → has_prefix (room ++ colon ∷ []) (key_of room []) ≡ false
unfolding has_prefix
has_prefix-empty_user room = ground arith

-- The entries of another room do not have it.
pub has_prefix_other :
    (room room' user : Text)
    → NoColon room
    → NoColon room'
    → room ≢ room'
    → has_prefix (room ++ colon ∷ []) (key_of room' user) ≡ false
unfolding has_prefix
has_prefix_other room room' user h h' ne =
    elim (Bool-cases (has_prefix (room ++ colon ∷ []) (key_of room' user))) [
      | inl yes' ↦ absurd (ne (key_of-injective room room' _ user h h' (split yes')).0)
      | inr no' ↦ no'
    ]
  where
    rest : Text
    rest = drop (length (room ++ colon ∷ [])) (key_of room' user)

    same_prefix :
        has_prefix (room ++ colon ∷ []) (key_of room' user) ≡ true
        → take (length (room ++ colon ∷ [])) (key_of room' user) ≡ room ++ colon ∷ []
    same_prefix t = ground arith

    split :
        has_prefix (room ++ colon ∷ []) (key_of room' user) ≡ true
        → key_of room rest ≡ key_of room' user
    split t =
        sym (append_assoc room (colon ∷ []) rest)
        ∙ ap (λ (p : Text). p ++ rest) (sym (same_prefix t))
        ∙ take-append-drop (length (room ++ colon ∷ [])) (key_of room' user)
