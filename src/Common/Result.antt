-- ===== src/Common/Result.antt =====
-- Fallible results. `Error` is the part of Go's `error` that the program builds:
-- internal/errors/errors.go.
use mathlib.Core.Path.{◌≡◌, refl}
use mathlib.Core.Option.{Option, none, some}
use Prim.Native.Nat.{ℕ}
use Prim.Native.String.{String}
use enimul.Common.Tests.{Bytes}

-- `msg` is `errors.New`, `op_error` the struct of the same name, `external` an error that a
-- package outside the repository returned.
pub data Error : Type 0 where
  msg : String → Error
  msg_with : String → Bytes → Error
  op_error : String → Error → Error
  external : ℕ → Error

-- `WithStr`: nil stays nil.
unfoldable pub with_str : String → Option Error → Option Error
with_str op none = none
with_str op (some e) = some (op_error op e)

-- A Go pair of a value and an error, of which one is nil.
pub data Result {ℓ} (A : Type ℓ) : Type ℓ where
  err : Error → Result A
  ok : A → Result A

pub ok_injective {ℓ} : {A : Type ℓ} {x y : A} → ok x ≡ ok y → x ≡ y
ok_injective h = cc

-- `if err != nil { return err }`
infixl 5 ◌>>=◌
abbrev pub ◌>>=◌ {ℓ κ} : {A : Type ℓ} {C : Type κ} → Result A → (A → Result C) → Result C
err failure >>= next = err failure
ok value >>= next = next value

-- What is known of the two steps where both returned a value.
pub >>=-eq-ok {ℓ κ} :
    {A : Type ℓ} {C : Type κ} (first : Result A) (next : A → Result C) {c : C}
    → (first >>= next) ≡ ok c
    → (x : A) × (first ≡ ok x) × (next x ≡ ok c)
>>=-eq-ok (err failure) next h = cc
>>=-eq-ok (ok value) next h = (value, refl, h)
