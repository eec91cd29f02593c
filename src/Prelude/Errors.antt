-- ===== src/Prelude/Errors.antt =====
-- The sentinel errors of internal/domain/room/room.go, internal/domain/session/session.go,
-- internal/app/roomsvc/errors.go and internal/ports/driving. The program wraps them with `%w` and
-- asks by `errors.Is`, which sees through the wrapping, so the wrapping text is left out.
use Prim.Native.Nat.{ℕ}
use mathlib.Core.Option.{Option}
use mathlib.Core.Path.{◌≡◌, refl}
use mathlib.Core.Logic.{◌⊎◌, inl, inr}

pub data Error : Type 0 where
  invalid_language_code room_full room_closed already_in_room not_in_room : Error
  short_code_exhausted short_read invalid_transition : Error
  room_not_found session_not_found unknown_message_type : Error
  missing_lang lang_not_supported nil_dependency : Error
  -- The run-time panic of a nil pointer.
  nil_dereference : Error
  -- An error of a port, told apart by a number.
  port_error : ℕ → Error

pub data Result {ℓ} (A : Type ℓ) : Type ℓ where
  ok : A → Result A
  err : Error → Result A

infixl 5 ◌>>=◌
abbrev pub ◌>>=◌ {ℓ κ} : {A : Type ℓ} {B : Type κ} → Result A → (A → Result B) → Result B
ok a >>= f = f a
err e >>= f = err e

-- A method that mutates its receiver and returns an `error`, which is nil if it is `none`.
abbrev pub Outcome : Type 0 → Type 0
Outcome S = Option Error × S

-- To split on a result and keep the equation.
pub Result-cases {ℓ} :
    {A : Type ℓ} (r : Result A) → ((e : Error) × (r ≡ err e)) ⊎ ((a : A) × (r ≡ ok a))
Result-cases (ok a) = inr (a, refl)
Result-cases (err e) = inl (e, refl)
