-- ===== src/Server/Atoi.antt =====
-- `strconv.Atoi` of the standard library, and that it reads decimal numerals.
use talk_go.Prelude.{
  Bool, Bool-cases, Option, Text, [], ap, arith, dec_lt, false, if◌then◌else◌, inl, inr, leb, ltb,
  nat_eq, negsuc, none, pos, refl, some, suc, sym, text_eq, true, zero, ℕ, ℤ, ◌%◌, ◌&&◌, ◌*◌, ◌++◌,
  ◌+◌, ◌-◌, ◌/◌, ◌<◌, ◌==◌, ◌^◌, ◌∙◌, ◌∷◌, ◌≡◌, ◌≤◌,
}

abbrev pub is_digit : ℕ → Bool
is_digit c = leb b'0' c && leb c b'9'

unfoldable pub digits_from : ℕ → Text → Option ℕ
digits_from acc [] = some acc
digits_from acc (c ∷ cs) = elim (is_digit c) [
  | true ↦ digits_from (acc * 10 + (c - b'0')) cs
  | false ↦ none
]

unfoldable pub magnitude : Text → Option ℕ
magnitude [] = none
magnitude (c ∷ cs) = digits_from 0 (c ∷ cs)

-- An `int` has 64 bits.
unfoldable pub positive : Option ℕ → Option ℤ
positive none = none
positive (some n) = if ltb n (2 ^ 63) then some (pos n) else none

unfoldable pub negative : Option ℕ → Option ℤ
negative none = none
negative (some zero) = some (pos 0)
negative (some (suc n)) = if ltb n (2 ^ 63) then some (negsuc n) else none

unfoldable pub atoi : Text → Option ℤ
atoi [] = none
atoi (c ∷ cs) =
    if c == b'-'
    then negative (magnitude cs)
    else if c == b'+'
    then positive (magnitude cs)
    else positive (magnitude (c ∷ cs))

-- The decimal numeral of a number, with fuel for its digits.
abbrev pub numeral_of : ℕ → ℕ → Text
numeral_of zero n = []
numeral_of (suc fuel) n =
    let more = numeral_of fuel (n / 10) in
    if ltb n 10 then (b'0' + n) ∷ [] else more ++ (b'0' + n % 10) ∷ []

abbrev pub numeral : ℕ → Text
numeral n = numeral_of (suc n) n

digits_from-append :
    (acc d : ℕ) (xs : Text)
    → d < 10
    → digits_from acc (xs ++ (b'0' + d) ∷ [])
      ≡ (elim (digits_from acc xs) [ none ↦ none | some m ↦ some (m * 10 + d) ])
unfolding digits_from
digits_from-append acc d [] h = ground arith
digits_from-append acc d (c ∷ xs) h =
    ground (arith, digits_from-append (acc * 10 + (c - b'0')) d xs h)

digits_from-numeral_of : (fuel n : ℕ) → n < fuel → digits_from 0 (numeral_of fuel n) ≡ some n
unfolding digits_from
digits_from-numeral_of zero n h = absurd (omega arith)
digits_from-numeral_of (suc fuel) n h = elim (dec_lt n 10) [
  | yes one ↦ ground arith
  | no more ↦ ground (
    arith,
    digits_from-append 0 (n % 10) (numeral_of fuel (n / 10)),
    digits_from-numeral_of fuel (n / 10) (omega arith),
  )
]

-- A numeral is a digit and what follows it.
numeral_of-digit :
    (fuel n : ℕ) → n < fuel → (c : ℕ) × (cs : Text) × (numeral_of fuel n ≡ c ∷ cs) × b'0' ≤ c
numeral_of-digit zero n h = absurd (omega arith)
numeral_of-digit (suc fuel) n h = elim (Bool-cases (ltb n 10)) [
  | inl one ↦ rw one (b'0' + n, [], refl, omega arith)
  | inr more ↦
      let ten : 10 ≤ n = ground arith in
      let (c, cs, e, digit) = numeral_of-digit fuel (n / 10) (omega arith) in
      rw (more, e) (c, cs ++ (b'0' + n % 10) ∷ [], refl, digit)
]

positive_small : (n : ℕ) → n < 2 ^ 63 → positive (some n) ≡ some (pos n)
unfolding positive
positive_small n h = elim (Bool-cases (ltb n (2 ^ 63))) [
  | inl small ↦ rw small refl
  | inr large ↦ absurd (ground arith)
]

atoi_digit :
    (c : ℕ) (cs : Text) (n : ℕ)
    → b'0' ≤ c
    → digits_from 0 (c ∷ cs) ≡ some n
    → n < 2 ^ 63
    → atoi (c ∷ cs) ≡ some (pos n)
unfolding atoi magnitude
atoi_digit c cs n digit read h = elim (Bool-cases (c == b'-')) [
  | inl minus ↦ absurd (ground arith)
  | inr no_minus ↦ elim (Bool-cases (c == b'+')) [
    | inl plus ↦ absurd (ground arith)
    | inr no_plus ↦ rw (no_minus, no_plus) (ap positive read ∙ positive_small n h)
  ]
]

-- The numeral of a number that an `int` can hold is read as that number.
pub atoi-numeral : (n : ℕ) → n < 2 ^ 63 → atoi (numeral n) ≡ some (pos n)
atoi-numeral n h =
    let (c, cs, e, digit) = numeral_of-digit (suc n) n (omega arith) in
    ap atoi e
    ∙ atoi_digit c cs n digit
        (ap (digits_from 0) (sym e) ∙ digits_from-numeral_of (suc n) n (omega arith)) h
