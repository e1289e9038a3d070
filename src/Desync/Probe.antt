-- ===== src/Desync/Probe.antt =====
-- The search of `probeMinimumReachableTTL`: when it ends and what it finds.
use enimul.Common.{
  ℕ, zero, suc, ◌+◌, ◌-◌, ◌/◌, ◌≤◌, ◌<◌, Bool, true, Option, none, some, ◌≡◌, refl, inl, inr, arith,
  leb, Bool-cases,
}
use enimul.Desync.{Search, attempt_loop, probe_loop, start, probe}

-- A TTL within the range at which some connection succeeded.
abbrev pub Reached : ℕ → (ℕ → ℕ → Bool) → Option ℕ → Type 0
Reached max_ttl reach none = Unit
Reached max_ttl reach (some m) = (n : ℕ) × (1 ≤ m) × (m ≤ max_ttl) × (reach n m ≡ true)

-- The bounds of the search, and what it has found.
record Bounded (max_ttl : ℕ) (reach : ℕ → ℕ → Bool) (s : Search) : Type 0 where
  from_one : 1 ≤ s.low
  to_max : s.high ≤ max_ttl
  reached : Reached max_ttl reach s.found

abbrev width : Search → ℕ
width s = s.high + 1 - s.low

module _ (max_ttl : ℕ) (reach : ℕ → ℕ → Bool) where
  attempt_loop-Bounded :
      (n mid : ℕ) (s : Search)
      → Bounded max_ttl reach s
      → s.low ≤ mid + 1
      → 1 ≤ mid
      → mid ≤ s.high
      → Bounded max_ttl reach (attempt_loop reach n mid s)
        × (width (attempt_loop reach n mid s) ≤ width s)
  unfolding attempt_loop
  attempt_loop-Bounded zero mid s b low pos_mid high = (b, omega arith)
  attempt_loop-Bounded (suc n) mid s b low pos_mid high = elim (Bool-cases (reach s.turn mid)) [
    | inl y ↦
        let to_max = b.to_max in
        rw (y, attempt_loop)
          (
            record {
              from_one = b.from_one;
              to_max = omega arith;
              reached = (s.turn, pos_mid, omega arith, y);
            },
            omega arith,
          )
    | inr y ↦
        let s' = record s { low = mid + 1; turn = s.turn + 1 } in
        let b' : Bounded max_ttl reach s' = record {
          from_one = omega arith;
          to_max = b.to_max;
          reached = b.reached;
        } in
        let (kept, narrower) = attempt_loop-Bounded n mid s' b' (omega arith) pos_mid high in
        rw (y, attempt_loop) (kept, omega arith)
  ]

  -- A round with an attempt leaves less between the bounds.
  attempt_loop-narrows :
      (n mid : ℕ) (s : Search)
      → Bounded max_ttl reach s
      → s.low ≤ mid
      → mid ≤ s.high
      → width (attempt_loop reach (suc n) mid s) < width s
  unfolding attempt_loop
  attempt_loop-narrows n mid s b low high = elim (Bool-cases (reach s.turn mid)) [
    | inl y ↦ let one = b.from_one in rw (y, attempt_loop) (omega arith)
    | inr y ↦
        let one = b.from_one in
        let s' = record s { low = mid + 1; turn = s.turn + 1 } in
        let b' : Bounded max_ttl reach s' = record {
          from_one = omega arith;
          to_max = b.to_max;
          reached = b.reached;
        } in
        let narrower = (attempt_loop-Bounded n mid s' b' (omega arith) (omega arith) high).1 in
        rw (y, attempt_loop) (omega arith)
  ]

  probe_loop-Reached :
      (n fuel : ℕ) (s : Search)
      → Bounded max_ttl reach s
      → width s < fuel
      → (r : Option ℕ) × (probe_loop reach (suc n) fuel s ≡ some r) × Reached max_ttl reach r
  unfolding probe_loop
  probe_loop-Reached n zero s b h = absurd (omega arith)
  probe_loop-Reached n (suc fuel) s b h = elim (Bool-cases (leb s.low s.high)) [
    | inr y ↦ (s.found, rw (y, probe_loop) refl, b.reached)
    | inl y ↦
        let one = b.from_one in
        let mid = (s.low + s.high) / 2 in
        let low_le : s.low ≤ mid = ground arith in
        let le_high : mid ≤ s.high = ground arith in
        let (kept, _) = attempt_loop-Bounded (suc n) mid s b (omega arith) (omega arith) le_high in
        let narrower = attempt_loop-narrows n mid s b low_le le_high in
        let (r, run, found) =
          probe_loop-Reached n fuel (attempt_loop reach (suc n) mid s) kept (omega arith) in
        (r, rw (y, probe_loop) run, found)
  ]

-- Without attempts a search that has begun never ends, on any fuel.
probe_loop_endless :
    (reach : ℕ → ℕ → Bool) (fuel : ℕ) (s : Search)
    → s.low ≤ s.high
    → probe_loop reach 0 fuel s ≡ none
unfolding probe_loop
probe_loop_endless reach zero s h = refl
probe_loop_endless reach (suc fuel) s h =
    let more : leb s.low s.high ≡ true = ground arith in
    rw (more, probe_loop, attempt_loop) (probe_loop_endless reach fuel s h)

-- With at least one attempt for each TTL `probeMinimumReachableTTL` ends, whichever connections
-- succeed, and a TTL that it finds is between 1 and the greatest one and reached the host. With no
-- attempt and a greatest TTL of at least 1 its loop never ends: it runs through any fuel.
pub probe-Reached :
    (max_ttl : ℕ) (reach : ℕ → ℕ → Bool) (n : ℕ)
    → ((r : Option ℕ) × (probe reach (suc n) max_ttl ≡ some r) × Reached max_ttl reach r)
      × ((fuel top : ℕ) → probe_loop reach 0 fuel (start (suc top)) ≡ none)
unfolding probe
probe-Reached max_ttl reach n = (
  probe_loop-Reached max_ttl reach n (max_ttl + 1) (start max_ttl)
      (record { from_one = omega arith; to_max = omega arith; reached = tt }) (omega arith),
  λ fuel top. probe_loop_endless reach fuel (start (suc top)) (omega arith),
)
