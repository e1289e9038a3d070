-- ===== src/Desync/Least.antt =====
-- The search over a path whose answer does not change: it finds the least TTL.
use enimul.Common.{
  ℕ, zero, suc, ◌+◌, ◌-◌, ◌/◌, ◌≤◌, ◌<◌, Bool, true, false, Option, none, some, ◌≡◌, ◌≢◌, refl, sym,
  ◌∙◌, inl, inr, arith, leb, Bool-cases, subst,
}
use enimul.Desync.{Search, attempt_loop, probe_loop, start, probe}

-- The host is not reached with a TTL from 1 to `n`.
abbrev pub Unreached : (ℕ → Bool) → ℕ → Type 0
Unreached host zero = Unit
Unreached host (suc n) = (host (suc n) ≡ false) × Unreached host n

-- A greater TTL reaches at least as far.
abbrev pub IsMonotone : (ℕ → Bool) → Type 0
IsMonotone host = (a b : ℕ) → a ≤ b → host a ≡ true → host b ≡ true

-- Nothing in the range reaches the host, or the TTL is the least one that does.
abbrev pub Least : ℕ → (ℕ → Bool) → Option ℕ → Type 0
Least max_ttl host none = Unreached host max_ttl
Least max_ttl host (some m) = (1 ≤ m) × (m ≤ max_ttl) × (host m ≡ true) × Unreached host (m - 1)

-- What the greater bound says of what was found.
abbrev Upper : ℕ → (ℕ → Bool) → ℕ → Option ℕ → Type 0
Upper max_ttl host high none = high ≡ max_ttl
Upper max_ttl host high (some m) = (m ≡ high + 1) × (m ≤ max_ttl) × (host m ≡ true)

record Sharp (max_ttl : ℕ) (host : ℕ → Bool) (s : Search) : Type 0 where
  from_one : 1 ≤ s.low
  close : s.low ≤ s.high + 1
  below : Unreached host (s.low - 1)
  upper : Upper max_ttl host s.high s.found

true-ne-false : true ≢ false
true-ne-false h = cc

module _ (max_ttl : ℕ) (host : ℕ → Bool) (mono : IsMonotone host) where
  missed_below : (n : ℕ) → host n ≡ false → Unreached host n
  missed_below zero h = tt
  missed_below (suc n) h = (
    h,
    missed_below n (elim (Bool-cases (host n)) [
      | inl y ↦ absurd (true-ne-false (sym (mono n (suc n) (omega arith) y) ∙ h))
      | inr y ↦ y
    ]),
  )

  abbrev pub reach : ℕ → ℕ → Bool
  reach n ttl = host ttl

  -- All attempts at a TTL that does not reach the host fail.
  attempt_loop-missed :
      (n mid : ℕ) (s : Search)
      → host mid ≡ false
      → s.low ≡ mid + 1
      → (attempt_loop reach n mid s).low ≡ mid + 1
        × ((attempt_loop reach n mid s).high ≡ s.high)
        × ((attempt_loop reach n mid s).found ≡ s.found)
  unfolding attempt_loop
  attempt_loop-missed zero mid s h low = (low, refl, refl)
  attempt_loop-missed (suc n) mid s h low =
      rw (h, attempt_loop)
        (attempt_loop-missed n mid (record s { low = mid + 1; turn = s.turn + 1 }) h refl)

  Sharp-attempt_loop :
      (n mid : ℕ) (s : Search)
      → Sharp max_ttl host s
      → s.low ≤ mid
      → mid ≤ s.high
      → s.high ≤ max_ttl
      → Sharp max_ttl host (attempt_loop reach (suc n) mid s)
        × ((attempt_loop reach (suc n) mid s).high ≤ max_ttl)
        × ((attempt_loop reach (suc n) mid s).high + 1 - (attempt_loop reach (suc n) mid s).low
            < s.high + 1 - s.low)
  unfolding attempt_loop
  Sharp-attempt_loop n mid s sharp low high to_max = elim (Bool-cases (host mid)) [
    | inl y ↦
        let one = sharp.from_one in
        rw (y, attempt_loop)
          (
            record {
              from_one = one;
              close = omega arith;
              below = sharp.below;
              upper = (omega arith, omega arith, y);
            },
            omega arith,
            omega arith,
          )
    | inr y ↦
        let one = sharp.from_one in
        let (l, u, f) =
          attempt_loop-missed n mid (record s { low = mid + 1; turn = s.turn + 1 }) y refl in
        let same : mid + 1 - 1 ≡ mid = omega arith in
        rw (y, attempt_loop)
          (
            record {
              from_one = rw l (omega arith);
              close = rw l (rw u (omega arith));
              below = rw l (rw same (missed_below mid y));
              upper = rw u (rw f sharp.upper);
            },
            rw u to_max,
            rw l (rw u (omega arith)),
          )
  ]

  Least-Upper :
      (high : ℕ) (r : Option ℕ)
      → Upper max_ttl host high r
      → Unreached host high
      → Least max_ttl host r
  Least-Upper high none same none_below = subst (Unreached host) same none_below
  Least-Upper high (some m) (next, inside, hit) none_below =
      let same : high ≡ m - 1 = omega arith in
      (omega arith, inside, hit, subst (Unreached host) same none_below)

  probe_loop-Least :
      (n fuel : ℕ) (s : Search)
      → Sharp max_ttl host s
      → s.high ≤ max_ttl
      → s.high + 1 - s.low < fuel
      → (r : Option ℕ) × (probe_loop reach (suc n) fuel s ≡ some r) × Least max_ttl host r
  unfolding probe_loop
  probe_loop-Least n zero s sharp to_max h = absurd (omega arith)
  probe_loop-Least n (suc fuel) s sharp to_max h = elim (Bool-cases (leb s.low s.high)) [
    | inr y ↦
        let one = sharp.from_one in
        let close = sharp.close in
        let met : s.low - 1 ≡ s.high = ground arith in
        (
          s.found,
          rw (y, probe_loop) refl,
          Least-Upper s.high s.found sharp.upper (subst (Unreached host) met sharp.below),
        )
    | inl y ↦
        let one = sharp.from_one in
        let mid = (s.low + s.high) / 2 in
        let (kept, inside, narrower) =
          Sharp-attempt_loop n mid s sharp (ground arith) (ground arith) to_max in
        let (r, run, least) =
          probe_loop-Least n fuel (attempt_loop reach (suc n) mid s) kept inside (omega arith) in
        (r, rw (y, probe_loop) run, least)
  ]

  -- Over a path whose answer does not change and on which a greater TTL reaches at least as far,
  -- `probeMinimumReachableTTL` with at least one attempt finds the least TTL that reaches the host, or
  -- nothing where none up to the greatest one does.
  pub probe-Least :
      (n : ℕ) → (r : Option ℕ) × (probe reach (suc n) max_ttl ≡ some r) × Least max_ttl host r
  unfolding probe
  probe-Least n =
      probe_loop-Least n (max_ttl + 1) (start max_ttl)
        (record { from_one = omega arith; close = omega arith; below = tt; upper = refl })
        (omega arith) (omega arith)
