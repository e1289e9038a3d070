-- ===== src/Desync/Fake.antt =====
-- The fake packet of the default rule stays short of the host.
use enimul.Common.{
  ℕ, suc, ◌+◌, ◌-◌, Bool, true, not, ◌&&◌, Option, none, some, [], ◌≡◌, ◌⊎◌, refl, sym, ap, ◌∙◌,
  inl, inr, arith, leb, subst,
}
use enimul.Common.Int.{ℤ, pos}
use enimul.Common.Result.{msg}
use enimul.Outcome.{Outcome, ok, failed, ◌>>=◌, ◌>>◌, guard, ok_injective}
use enimul.Netip.{Addr, unmap}
use enimul.Policy.{Policy, is_0, is_unset_int, unset_int}
use enimul.Desync.{
  probe, found_or_unset, TtlProbeManager, gen_ttl_calc_func, get_minimum_reachable_ttl,
  get_fake_ttl, sub_ℤ, cached_ttl, calculated,
}
use enimul.Desync.Least.{Unreached, IsMonotone, Least, probe-Least}

module _ (max_ttl : ℕ) (host : ℕ → Bool) (mono : IsMonotone host) where
  -- The connections succeed by their TTL alone.
  abbrev pub fixed : ℕ → ℕ → Bool
  fixed n ttl = host ttl

  -- What `getFakeTTL` does with the TTL that was found.
  abbrev behind : Outcome (ℤ × Bool) → (ℤ → Outcome ℤ) → Outcome ℤ
  behind first calc = do
    found ← first
    guard (not (is_unset_int found.0)) (msg "reachable ttl not found")
    calculated (calc found.0)

  get_minimum_of :
      (n : ℕ) (m : TtlProbeManager) (addr : Addr) (cache_ttl : ℤ) (r : Option ℕ)
      → cached_ttl m.cache (unmap addr) ≡ none
      → probe fixed (suc n) max_ttl ≡ some r
      → (stored : Bool) × (get_minimum_reachable_ttl fixed m addr
            (pos max_ttl)
            (pos (suc n))
            cache_ttl
          ≡ ok (found_or_unset r, stored))
  unfolding get_minimum_reachable_ttl
  get_minimum_of n m addr cache_ttl r missing run = (
    not (is_unset_int (found_or_unset r)) && not (is_0 cache_ttl) && not (is_unset_int cache_ttl),
    rw (missing, get_minimum_reachable_ttl) (rw run refl),
  )

  get_fake_ttl-behind :
      (n : ℕ) (m : TtlProbeManager) (p : Policy) (addr : Addr) (r : Option ℕ)
      → p.fake_ttl ≡ unset_int
      → p.attempts ≡ pos (suc n)
      → p.max_ttl ≡ pos max_ttl
      → cached_ttl m.cache (unmap addr) ≡ none
      → gen_ttl_calc_func [] ≡ ok m.calc_ttl
      → probe fixed (suc n) max_ttl ≡ some r
      → (stored : Bool) × (get_fake_ttl fixed m p addr
          ≡ behind (ok (found_or_unset r, stored)) (λ ttl. ok (sub_ℤ ttl (pos 1))))
  unfolding get_fake_ttl gen_ttl_calc_func
  get_fake_ttl-behind n m p addr r unset attempts range missing by_default run =
      let (stored, found) = get_minimum_of n m addr p.ttl_cache_ttl r missing run in
      let first : get_minimum_reachable_ttl fixed m addr p.max_ttl p.attempts p.ttl_cache_ttl
          ≡ ok (found_or_unset r, stored) =
        ap (λ t. get_minimum_reachable_ttl fixed m addr t p.attempts p.ttl_cache_ttl) range
        ∙ ap (λ t. get_minimum_reachable_ttl fixed m addr (pos max_ttl) t p.ttl_cache_ttl) attempts
        ∙ found in
      let by_search : get_fake_ttl fixed m p addr
          ≡ behind (get_minimum_reachable_ttl fixed m addr p.max_ttl p.attempts p.ttl_cache_ttl)
              m.calc_ttl =
        rw (unset, get_fake_ttl) refl in
      (
        stored,
        by_search
            ∙ ap (λ o. behind o m.calc_ttl) first
            ∙ ap (behind (ok (found_or_unset r, stored))) (sym (ok_injective by_default)),
      )

  -- What the two cases of the search mean for the fake TTL.
  abbrev pub ShortOf : Outcome ℤ → Type 0
  ShortOf out =
      ((f : ℕ) × (out ≡ ok (pos f)) × (host (f + 1) ≡ true) × Unreached host f)
      ⊎ ((out ≡ failed (msg "reachable ttl not found")) × Unreached host max_ttl)

  ShortOf-behind :
      (r : Option ℕ) (stored : Bool)
      → Least max_ttl host r
      → ShortOf (behind (ok (found_or_unset r, stored)) (λ ttl. ok (sub_ℤ ttl (pos 1))))
  unfolding sub_ℤ
  ShortOf-behind none stored least = inr (refl, least)
  ShortOf-behind (some t) stored (one, inside, hit, below) =
      let back : t - 1 + 1 ≡ t = omega arith in
      let above : leb 1 t ≡ true = ground arith in inl (t - 1, rw (above) refl, rw back hit, below)

  -- `getFakeTTL` with no fake TTL in the policy, nothing in the cache, no rules and at least one
  -- attempt, over a path whose answer does not change and on which a greater TTL reaches at least as
  -- far: it returns a TTL that does not reach the host while the next one does, or the error that no
  -- TTL was found where none up to the greatest one reaches it.
  pub get_fake_ttl-ShortOf :
      (n : ℕ) (m : TtlProbeManager) (p : Policy) (addr : Addr)
      → p.fake_ttl ≡ unset_int
      → p.attempts ≡ pos (suc n)
      → p.max_ttl ≡ pos max_ttl
      → cached_ttl m.cache (unmap addr) ≡ none
      → gen_ttl_calc_func [] ≡ ok m.calc_ttl
      → ShortOf (get_fake_ttl fixed m p addr)
  get_fake_ttl-ShortOf n m p addr unset attempts range missing by_default =
      let (r, run, least) = probe-Least max_ttl host mono n in
      let (stored, same) =
        get_fake_ttl-behind n m p addr r unset attempts range missing by_default run in
      subst ShortOf (sym same) (ShortOf-behind r stored least)
