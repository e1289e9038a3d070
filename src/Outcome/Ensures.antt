-- ===== src/Outcome/Ensures.antt =====
-- A computation does not panic, and what it returns satisfies a predicate.
use enimul.Common.{Bool, true, false, ◌≡◌, refl}
use enimul.Common.Result.{Error}
use enimul.Outcome.{Outcome, ok, failed, ◌>>=◌, ◌>>◌, guard}

pub data Ensures {ℓ} {A : Type ℓ} (P : A → Type 0) : Outcome A → Type ℓ where
  returns : {a : A} → P a → Ensures P (ok a)
  fails : {e : Error} → Ensures P (failed e)

pub Ensures-bind {ℓ κ} :
    {A : Type ℓ} {B : Type κ} {Q : A → Type 0} {P : B → Type 0} {m : Outcome A} {f : A → Outcome B}
    → Ensures Q m
    → ((a : A) → Q a → Ensures P (f a))
    → Ensures P (m >>= f)
Ensures-bind (returns {a} q) k = k a q
Ensures-bind fails k = fails

pub Ensures-guard {ℓ} :
    {B : Type ℓ} {P : B → Type 0} (b : Bool) (e : Error) {rest : Outcome B}
    → (b ≡ true → Ensures P rest)
    → Ensures P (guard b e >> rest)
Ensures-guard true e k = k refl
Ensures-guard false e k = fails

pub Ensures-weaken {ℓ} :
    {A : Type ℓ} {Q P : A → Type 0} {m : Outcome A}
    → Ensures Q m
    → ((a : A) → Q a → P a)
    → Ensures P m
Ensures-weaken (returns {a} q) k = returns (k a q)
Ensures-weaken fails k = fails

-- What is known of a computation that returned.
pub Ensures-ok {ℓ} : {A : Type ℓ} {P : A → Type 0} {a : A} → Ensures P (ok a) → P a
Ensures-ok (returns p) = p
