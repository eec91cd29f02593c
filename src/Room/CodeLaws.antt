-- ===== src/Room/CodeLaws.antt =====
-- What the short codes of a room look like.
use talk_go.Prelude.{
  All, Bool, Bool-cases, List, Text, [], ap, arith, contains, dec_lt, err, false, get_or,
  if◌then◌else◌, inl, inr, leb, length, length-map, length-take, ltb, map, nat_eq, not, ok, refl,
  short_read, suc, sym, take, text_eq, true, zero, ℕ, ℕ_discrete, ◌%◌, ◌&&◌, ◌+◌, ◌<◌, ◌==◌, ◌||◌,
  ◌∷◌, ◌≡◌, ◌≢◌, ◌≤◌, ◌⊎◌,
}
use talk_go.Room.{generate_short_code, alphabet, letter}

-- The letters and digits that are not easily mistaken: no `0`, `1`, `I` or `O`.
abbrev pub IsCodeLetter : ℕ → Type 0
IsCodeLetter c = (((b'A' ≤ c) × (c ≤ b'Z')) ⊎ ((b'2' ≤ c) × (c ≤ b'9'))) × (c ≢ b'I') × (c ≢ b'O')

check_letter : ℕ → Bool
check_letter c =
    ((leb b'A' c && leb c b'Z') || (leb b'2' c && leb c b'9')) && not (c == b'I') && not (c == b'O')

-- A test passes on every number from 0 up to `bound`, without `bound` itself.
passes : (ℕ → Bool) → ℕ → Bool
passes test zero = true
passes test (suc bound) = passes test bound && test bound

passed : (test : ℕ → Bool) (bound v : ℕ) → v < bound → passes test bound ≡ true → test v ≡ true
unfolding passes
passed test zero v small all = absurd (omega arith)
passed test (suc bound) v small all = elim (dec_lt v bound) [
  | yes smaller ↦ passed test bound v smaller (ground arith)
  | no last ↦ ground arith
]

check_letter_sound : (c : ℕ) → check_letter c ≡ true → IsCodeLetter c
unfolding check_letter
check_letter_sound c h = ground arith

letter_table : passes (λ v. check_letter (letter v)) 32 ≡ true
unfolding passes check_letter letter ℕ_discrete
letter_table = refl

letter-mod : (v : ℕ) → letter v ≡ letter (v % 32)
unfolding letter
letter-mod v =
    let e : v % 32 % 32 ≡ v % 32 = omega arith in ap (λ (i : ℕ). get_or alphabet i 0) (sym e)

letter-IsCodeLetter : (v : ℕ) → IsCodeLetter (letter v)
letter-IsCodeLetter v = rw letter-mod (
    check_letter_sound (letter (v % 32))
      (passed (λ w. check_letter (letter w)) 32 (v % 32) (omega arith) letter_table))

map-letter : (bs : List ℕ) → All IsCodeLetter (map letter bs)
map-letter [] = tt
map-letter (b ∷ bs) = (letter-IsCodeLetter b, map-letter bs)

-- Given six bytes, a code has six characters, all unambiguous; given fewer, the call fails.
pub generate_short_code_lem :
    (reader : List ℕ)
    → ((code : Text) × (generate_short_code reader ≡ ok code)
        × (length code ≡ 6)
        × All IsCodeLetter code
        × (6 ≤ length reader))
      ⊎ ((generate_short_code reader ≡ err short_read) × (length reader < 6))
unfolding generate_short_code
generate_short_code_lem reader = elim (Bool-cases (ltb (length reader) 6)) [
  | inl few ↦ inr (rw few, ground arith)
  | inr enough ↦ inl (
    map letter (take 6 reader),
    rw enough,
    omega (
      arith,
      length-map {0, 0} (take 6 reader) letter,
      length-take {0} 6 reader,
      le_of_not_ltb enough,
    ),
    map-letter (take 6 reader),
    le_of_not_ltb enough,
  )
]
  where
    le_of_not_ltb : ltb (length reader) 6 ≡ false → 6 ≤ length reader
    le_of_not_ltb h = ground arith

-- How many of the byte values below `n` draw the character `c`.
count_below : ℕ → ℕ → ℕ
count_below zero c = 0
count_below (suc n) c = (if letter n == c then 1 else 0) + count_below n c

all_of : (ℕ → Bool) → List ℕ → Bool
all_of p [] = true
all_of p (x ∷ xs) = p x && all_of p xs

all_of_sound :
    (p : ℕ → Bool) (c : ℕ) (xs : List ℕ) → all_of p xs ≡ true → contains c xs ≡ true → p c ≡ true
unfolding all_of contains
all_of_sound p c [] h m = cc
all_of_sound p c (x ∷ xs) h m = ground (arith, all_of_sound p c xs)

uniform_table : all_of (λ c. count_below 256 c == 8) alphabet ≡ true
unfolding all_of count_below letter ℕ_discrete
uniform_table = refl

-- Every character of the alphabet is drawn by exactly eight of the 256 byte values.
letter_uniform : (c : ℕ) → contains c alphabet ≡ true → count_below 256 c ≡ 8
letter_uniform c h =
    eq_of_test (count_below 256 c) 8
      (all_of_sound (λ d. count_below 256 d == 8) c alphabet uniform_table h)
  where
    eq_of_test : (a b : ℕ) → (a == b) ≡ true → a ≡ b
    eq_of_test a b e = ground arith
