-- ===== src/Policy/Checks/Validation.antt =====
-- What `newPolicy` lets through.
use Prim.Native.String.{String}
use enimul.Common.{
  ℕ, zero, suc, Bool, false, Option, none, some, ◌≡◌, refl, ◌⊎◌, inl, inr, arith, Bool-cases, ◌==◌,
}
use enimul.Common.Int.{ℤ, pos, negsuc}
use enimul.Outcome.Ensures.{Ensures, returns, fails, Ensures-bind}
use enimul.Policy.{unset_int, Policy, PolicyOptions}
use enimul.Policy.Checks.{checked, not_positive, negative, optional, new_policy}

checked-Ensures :
    {A : Type 0} (P : ℤ → Type 0) (bad : A → Bool) (complaint : String) (conv : A → ℤ) (initial : ℤ)
    (o : Option A)
    → P initial
    → ((a : A) → bad a ≡ false → P (conv a))
    → Ensures P (checked bad complaint conv initial o)
unfolding checked
checked-Ensures P bad complaint conv initial none h k = returns h
checked-Ensures P bad complaint conv initial (some a) h k = elim (Bool-cases (bad a)) [
  | inl y ↦ rw (y, checked) fails
  | inr y ↦ rw (y, checked) (returns (k a y))
]

-- An integer that is positive, or `unset` where the option is not given.
abbrev pub PositiveOr : ℤ → ℤ → Type 0
PositiveOr unset v = (v ≡ unset) ⊎ ((n : ℕ) × (v ≡ pos (suc n)))

abbrev pub NotNegativeOr : ℤ → ℤ → Type 0
NotNegativeOr unset v = (v ≡ unset) ⊎ ((n : ℕ) × (v ≡ pos n))

pub record IsValid (p : Policy) : Type 0 where
  pub connect_timeout : PositiveOr unset_int p.connect_timeout
  pub dial_delay : PositiveOr unset_int p.dial_delay
  pub single_timeout : PositiveOr unset_int p.single_timeout
  pub fake_sleep : PositiveOr (pos 0) p.fake_sleep
  pub max_ttl : PositiveOr (pos 0) p.max_ttl
  pub send_interval : NotNegativeOr unset_int p.send_interval
  pub dns_cache_ttl : NotNegativeOr unset_int p.dns_cache_ttl
  pub ttl_cache_ttl : NotNegativeOr unset_int p.ttl_cache_ttl
  pub port : NotNegativeOr unset_int p.port
  pub fake_ttl : NotNegativeOr unset_int p.fake_ttl

positive : {unset : ℤ} (v : ℤ) → not_positive v ≡ false → PositiveOr unset v
positive (pos zero) h = ground arith
positive (pos (suc n)) h = inr (n, refl)
positive (negsuc n) h = ground arith

not_negative : {unset : ℤ} (v : ℤ) → negative v ≡ false → NotNegativeOr unset v
not_negative (pos n) h = inr (n, refl)
not_negative (negsuc n) h = ground arith

not_0 : {unset : ℤ} (n : ℕ) → (n == 0) ≡ false → PositiveOr unset (pos n)
not_0 zero h = ground arith
not_0 (suc n) h = inr (n, refl)

optional-NotNegative : (o : Option ℕ) → NotNegativeOr unset_int (optional pos o)
unfolding optional
optional-NotNegative none = inl refl
optional-NotNegative (some n) = inr (n, refl)

-- `newPolicy` does not panic, and every policy that it makes is valid: its durations are positive,
-- those of the caches and `send_interval` not negative, or they are unset, `max_ttl` is positive or
-- unset, and `fake_ttl` and `port` are not negative or unset.
pub new_policy-IsValid : (o : PolicyOptions) → Ensures IsValid (new_policy o)
unfolding new_policy
new_policy-IsValid o =
    Ensures-bind (checked-Ensures (λ _. Unit {0}) _ _ _ _ o.num_records tt (λ _ _. tt))
      (λ records _.
        Ensures-bind (checked-Ensures (λ _. Unit {0}) _ _ _ _ o.num_segments tt (λ _ _. tt))
          (λ segments _.
            Ensures-bind (checked-Ensures (λ _. Unit {0}) _ _ _ _ o.attempts tt (λ _ _. tt))
              (λ attempts _.
                Ensures-bind
                  (checked-Ensures (PositiveOr (pos 0)) _ _ _ _ o.max_ttl (inl refl) (not_0))
                  (λ max_ttl max_ttl_ok.
                    Ensures-bind
                      (checked-Ensures (PositiveOr unset_int) _ _ _ _ o.connect_timeout (inl refl)
                        (positive))
                      (λ connect_timeout connect_timeout_ok.
                        Ensures-bind
                          (checked-Ensures (PositiveOr unset_int) _ _ _ _ o.dial_delay (inl refl)
                            (positive))
                          (λ dial_delay dial_delay_ok.
                            Ensures-bind
                              (checked-Ensures (NotNegativeOr unset_int) _ _ _ _ o.send_interval
                                (inl refl) (not_negative))
                              (λ send_interval send_interval_ok.
                                Ensures-bind
                                  (checked-Ensures (PositiveOr (pos 0)) _ _ _ _ o.fake_sleep
                                    (inl refl) (positive))
                                  (λ fake_sleep fake_sleep_ok.
                                    Ensures-bind
                                      (checked-Ensures (PositiveOr unset_int) _ _ _ _
                                        o.single_timeout (inl refl) (positive))
                                      (λ single_timeout single_timeout_ok.
                                        Ensures-bind
                                          (checked-Ensures (NotNegativeOr unset_int) _ _ _ _
                                            o.dns_cache_ttl (inl refl) (not_negative))
                                          (λ dns_cache_ttl dns_cache_ttl_ok.
                                            Ensures-bind
                                              (checked-Ensures (NotNegativeOr unset_int) _ _ _ _
                                                o.ttl_cache_ttl (inl refl) (not_negative))
                                              (λ ttl_cache_ttl ttl_cache_ttl_ok. returns (record {
                                                connect_timeout = connect_timeout_ok;
                                                dial_delay = dial_delay_ok;
                                                single_timeout = single_timeout_ok;
                                                fake_sleep = fake_sleep_ok;
                                                max_ttl = max_ttl_ok;
                                                send_interval = send_interval_ok;
                                                dns_cache_ttl = dns_cache_ttl_ok;
                                                ttl_cache_ttl = ttl_cache_ttl_ok;
                                                port = optional-NotNegative o.port;
                                                fake_ttl = optional-NotNegative o.fake_ttl;
                                              }))))))))))))
