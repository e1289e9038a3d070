-- ===== src/Desync/Tests.antt =====
-- Runs of the rules and of the search, and the theorems at them.
use enimul.Common.{ℕ, suc, Bool, Option, none, some, [], ◌∷◌, ◌≡◌, refl, arith, leb, Bytes}
use enimul.Common.Int.{pos}
use enimul.Outcome.{ok, ◌>>=◌}
use enimul.Netip.{v4}
use enimul.Policy.{Policy, init_policy}
use enimul.Desync.{
  TtlProbeManager, probe_loop, start, probe, parse_ttl_rules, apply_rules, sub_ℤ, get_fake_ttl,
  gen_ttl_calc_func,
}
use enimul.Desync.Probe.{Reached, probe-Reached}
use enimul.Desync.Least.{IsMonotone}
use enimul.Desync.Fake.{fixed, ShortOf, get_fake_ttl-ShortOf}

-- "5-2;12=9"
abbrev rules_text : Bytes
rules_text = b'5' ∷ b'-' ∷ b'2' ∷ b';' ∷ b'1' ∷ b'2' ∷ b'=' ∷ b'9' ∷ []

by_rules : (parse_ttl_rules rules_text >>= λ rules. apply_rules rules (pos 13)) ≡ ok (pos 9)
unfolding parse_ttl_rules apply_rules
by_rules = refl

-- A host that three hops reach.
abbrev three_hops : ℕ → Bool
three_hops ttl = leb 3 ttl

three_hops-IsMonotone : IsMonotone three_hops
three_hops-IsMonotone a b le hit = ground arith

-- The first connection at a TTL is lost, and the second one ends the search there.
abbrev lost_at_first : ℕ → ℕ → Bool
lost_at_first turn ttl = leb 1 turn

lost_probe : probe lost_at_first 2 8 ≡ some (some 4)
unfolding probe
lost_probe = refl

probe-Reached_example :
    ((r : Option ℕ) × (probe lost_at_first 2 8 ≡ some r) × Reached 8 lost_at_first r)
    × ((fuel top : ℕ) → probe_loop lost_at_first 0 fuel (start (suc top)) ≡ none)
probe-Reached_example = probe-Reached 8 lost_at_first 1

abbrev no_cache : TtlProbeManager
no_cache = record { calc_ttl = λ ttl. ok (sub_ℤ ttl (pos 1)); cache = none }

abbrev ttl_policy : Policy
ttl_policy = record init_policy { max_ttl = pos 8; attempts = pos 2 }

get_fake_ttl-ShortOf_example :
    ShortOf 8 three_hops three_hops-IsMonotone
      (get_fake_ttl (fixed 8 three_hops three_hops-IsMonotone) no_cache ttl_policy (v4 1))
unfolding gen_ttl_calc_func
get_fake_ttl-ShortOf_example =
    get_fake_ttl-ShortOf 8 three_hops three_hops-IsMonotone 1 no_cache ttl_policy (v4 1) refl refl
      refl refl refl
