-- ===== src/Outcome.antt =====
-- Computations that may return an error or panic, such as a slice expression out of range.
pub mod Ensures
use enimul.Common.{Bool, if◌then◌else◌, ◌≡◌, refl}
use enimul.Common.Result.{Error}

pub data Outcome {ℓ} (A : Type ℓ) : Type ℓ where
  panic : Outcome A
  failed : Error → Outcome A
  ok : A → Outcome A

-- The first statement, then the rest, unless it returns an error or panics.
infixl 5 ◌>>=◌ ◌>>◌
abbrev pub ◌>>=◌ {ℓ κ} : {A : Type ℓ} {C : Type κ} → Outcome A → (A → Outcome C) → Outcome C
panic >>= next = panic
failed failure >>= next = failed failure
ok value >>= next = next value

abbrev pub ◌>>◌ {ℓ} : {C : Type ℓ} → Outcome (Unit {0}) → Outcome C → Outcome C
first >> next = first >>= λ _. next

-- `if !good { return failure }`
abbrev pub guard : Bool → Error → Outcome (Unit {0})
guard good failure = if good then ok tt else failed failure

pub ok_injective {ℓ} : {A : Type ℓ} {x y : A} → ok x ≡ ok y → x ≡ y
ok_injective h = cc

-- What is known of the two steps of a computation that returned.
pub >>=-eq-ok {ℓ κ} :
    {A : Type ℓ} {C : Type κ} (first : Outcome A) (next : A → Outcome C) {c : C}
    → (first >>= next) ≡ ok c
    → (x : A) × (first ≡ ok x) × (next x ≡ ok c)
>>=-eq-ok panic next h = cc
>>=-eq-ok (failed e) next h = cc
>>=-eq-ok (ok x) next h = (x, refl, h)
