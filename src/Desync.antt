-- ===== src/Desync.antt =====
-- internal/core/desync.go: the rules for the TTL of the fake packet and the search for the least TTL
-- that reaches a host. Go's 64-bit `int` wraps in `read_number`; a rule's subtraction is not wrapped.
pub mod Probe
pub mod Least
pub mod Fake
mod Tests
use Prim.Native.String.{String}
use enimul.Common.{
  ℕ, zero, suc, ◌+◌, ◌-◌, ◌*◌, ◌/◌, ◌%◌, ◌^◌, Bool, true, false, not, ◌&&◌, ◌||◌, Option, none,
  some, List, [], ◌∷◌, ◌++◌, ◌==◌, leb, ltb, if◌then◌else◌, Bytes, length,
}
use enimul.Common.Int.{ℤ, pos, negsuc, ◌==ℤ◌, leb_ℤ, sub_ℕ}
use enimul.Common.Result.{Error, msg, op_error}
use enimul.Outcome.{Outcome, ok, failed, panic, ◌>>=◌, ◌>>◌, guard}
use enimul.Netip.{Addr, unmap}
use enimul.Policy.{Policy, is_0, is_unset_int, unset_int}

-- `ttlRule`
pub record TtlRule : Type 0 where
  pub threshold : ℤ
  pub typ : ℕ
  pub val : ℤ

-- The number that 64 bits stand for in Go's `int`.
abbrev pub of_word : ℕ → ℤ
of_word w = if ltb w (2 ^ 63) then pos w else negsuc (2 ^ 64 - 1 - w)

abbrev pub is_digit : ℕ → Bool
is_digit c = leb b'0' c && leb c b'9'

-- The digits in front, and what is behind them.
unfoldable pub span_digits : Bytes → Bytes × Bytes
span_digits [] = ([], [])
span_digits (c ∷ cs) =
    let (digits, rest) = span_digits cs in if is_digit c then (c ∷ digits, rest) else ([], c ∷ cs)

-- `a = a*10 + int(c-'0')` over the digits.
unfoldable pub read_number : Bytes → ℕ → ℕ
read_number [] acc = acc
read_number (c ∷ cs) acc = read_number cs ((acc * 10 + (c - b'0')) % 2 ^ 64)

unfoldable pub has_threshold : ℤ → List TtlRule → Bool
has_threshold a [] = false
has_threshold a (r ∷ rs) = if r.threshold ==ℤ a then true else has_threshold a rs

-- The operator and what is behind it.
unfoldable pub read_operator : Bytes → Outcome (ℕ × Bytes)
read_operator [] = failed (msg "missing operator")
read_operator (op ∷ rest) =
    if op == b'-' || op == b'=' then ok (op, rest) else failed (msg "invalid operator")

abbrev pub skip_semicolon : Bytes → Bytes
skip_semicolon [] = []
skip_semicolon (c ∷ cs) = if c == b';' then cs else c ∷ cs

-- One round of the loop of `parseTTLRules`: a rule and what is behind it.
unfoldable pub read_rule : Bytes → List TtlRule → Outcome (TtlRule × Bytes)
unfolding span_digits read_number has_threshold read_operator
read_rule s rules = do
  let left = span_digits s
  guard (not (length left.0 == 0)) (msg "missing left number")
  let a = of_word (read_number left.0 0)
  operator ← read_operator left.1
  let right = span_digits operator.1
  guard (not (length right.0 == 0)) (msg "missing right number")
  guard (not (has_threshold a rules)) (msg "duplicate threshold")
  ok (
    record { threshold = a; typ = operator.0; val = of_word (read_number right.0 0) },
    skip_semicolon right.1,
  )

-- The loop of `parseTTLRules`; a round takes at least one byte, and no fuel would be a panic.
unfoldable pub read_rules : ℕ → Bytes → List TtlRule → Outcome (List TtlRule)
unfolding read_rule
read_rules zero s rules = panic
read_rules (suc fuel) [] rules = ok rules
read_rules (suc fuel) (c ∷ cs) rules =
    read_rule (c ∷ cs) rules >>= λ r. read_rules fuel r.1 (rules ++ r.0 ∷ [])

-- `slices.SortFunc`, from the highest threshold down; no two thresholds are equal.
unfoldable pub insert_rule : TtlRule → List TtlRule → List TtlRule
insert_rule r [] = r ∷ []
insert_rule r (s ∷ ss) =
    let rest = insert_rule r ss in if leb_ℤ s.threshold r.threshold then r ∷ s ∷ ss else s ∷ rest

unfoldable pub sort_rules : List TtlRule → List TtlRule
unfolding insert_rule
sort_rules [] = []
sort_rules (r ∷ rs) = insert_rule r (sort_rules rs)

-- `parseTTLRules`
unfoldable pub parse_ttl_rules : Bytes → Outcome (List TtlRule)
unfolding read_rules sort_rules
parse_ttl_rules s = read_rules (suc (length s)) s [] >>= λ rules. ok (sort_rules rules)

-- `a - b`
unfoldable pub sub_ℤ : ℤ → ℤ → ℤ
sub_ℤ (pos a) (pos b) = sub_ℕ a b
sub_ℤ (pos a) (negsuc b) = pos (a + b + 1)
sub_ℤ (negsuc a) (pos b) = negsuc (a + b)
sub_ℤ (negsuc a) (negsuc b) = sub_ℕ b a

-- The function that `genTTLCalcFunc` returns for rules.
unfoldable pub apply_rules : List TtlRule → ℤ → Outcome ℤ
unfolding sub_ℤ
apply_rules [] ttl = failed (msg "no matching ttl rule")
apply_rules (r ∷ rs) ttl =
    let rest = apply_rules rs ttl in
    if leb_ℤ r.threshold ttl then ok (if r.typ == b'-' then sub_ℤ ttl r.val else r.val) else rest

-- `genTTLCalcFunc`
unfoldable pub gen_ttl_calc_func : Bytes → Outcome (ℤ → Outcome ℤ)
unfolding parse_ttl_rules apply_rules sub_ℤ
gen_ttl_calc_func [] = ok (λ ttl. ok (sub_ℤ ttl (pos 1)))
gen_ttl_calc_func (c ∷ cs) = elim (parse_ttl_rules (c ∷ cs)) [
  | ok rules ↦ ok (apply_rules rules)
  | failed e ↦ failed (op_error "parse ttl rules" e)
  | panic ↦ panic
]

-- The variables of the loop of `probeMinimumReachableTTL`, and the connections tried so far.
pub record Search : Type 0 where
  pub low : ℕ
  pub high : ℕ
  pub found : Option ℕ
  pub turn : ℕ

-- The loop over the attempts at one TTL; `reach n ttl` is whether the n-th connection succeeds.
unfoldable pub attempt_loop : (ℕ → ℕ → Bool) → ℕ → ℕ → Search → Search
attempt_loop reach zero mid s = s
attempt_loop reach (suc n) mid s =
    let missed = attempt_loop reach n mid (record s { low = mid + 1; turn = s.turn + 1 }) in
    if reach s.turn mid
    then record s { found = some mid; high = mid - 1; turn = s.turn + 1 }
    else missed

-- The loop of `probeMinimumReachableTTL`: what was found, or `none` where the fuel ran out.
unfoldable pub probe_loop : (ℕ → ℕ → Bool) → ℕ → ℕ → Search → Option (Option ℕ)
unfolding attempt_loop
probe_loop reach attempts zero s = none
probe_loop reach attempts (suc fuel) s =
    let rest =
      probe_loop reach attempts fuel (attempt_loop reach attempts ((s.low + s.high) / 2) s) in
    if leb s.low s.high then rest else some s.found

abbrev pub start : ℕ → Search
start max_ttl = record { low = 1; high = max_ttl; found = none; turn = 0 }

unfoldable pub probe : (ℕ → ℕ → Bool) → ℕ → ℕ → Option (Option ℕ)
unfolding probe_loop
probe reach attempts max_ttl = probe_loop reach attempts (max_ttl + 1) (start max_ttl)

-- -1 where nothing was found.
abbrev pub found_or_unset : Option ℕ → ℤ
found_or_unset none = unset_int
found_or_unset (some ttl) = pos ttl

-- `ttlProbeManager`: the function for the fake TTL and the cache, if there is one.
pub record TtlProbeManager : Type 0 where
  pub calc_ttl : ℤ → Outcome ℤ
  pub cache : Option (Addr → Option ℤ)

abbrev pub number_or_zero : ℤ → ℕ
number_or_zero (pos n) = n
number_or_zero (negsuc n) = 0

-- `m.ttlCache.Get`
abbrev pub cached_ttl : Option (Addr → Option ℤ) → Addr → Option ℤ
cached_ttl none addr = none
cached_ttl (some lookup) addr = lookup addr

-- `getMinimumReachableTTL`: the TTL, and whether it is stored in the cache. That calls at the same
-- time share one search is left out. The search without end is a panic here.
unfoldable pub get_minimum_reachable_ttl :
    (ℕ → ℕ → Bool) → TtlProbeManager → Addr → ℤ → ℤ → ℤ → Outcome (ℤ × Bool)
unfolding probe unmap
get_minimum_reachable_ttl reach m addr max_ttl attempts cache_ttl =
    elim (cached_ttl m.cache (unmap addr)) [
      | some ttl ↦ ok (ttl, false)
      | none ↦ elim (probe reach (number_or_zero attempts) (number_or_zero max_ttl)) [
        | none ↦ panic
        | some found ↦ ok (
          found_or_unset found,
          not (is_unset_int (found_or_unset found))
              && not (is_0 cache_ttl)
              && not (is_unset_int cache_ttl),
        )
      ]
    ]

abbrev pub calculated : Outcome ℤ → Outcome ℤ
calculated (ok ttl) = ok ttl
calculated (failed e) = failed (op_error "calculate fake ttl" e)
calculated panic = panic

-- `getFakeTTL`
unfoldable pub get_fake_ttl : (ℕ → ℕ → Bool) → TtlProbeManager → Policy → Addr → Outcome ℤ
unfolding get_minimum_reachable_ttl
get_fake_ttl reach m p addr =
    if not (is_0 p.fake_ttl) && not (is_unset_int p.fake_ttl) then ok p.fake_ttl else (do
      found ← get_minimum_reachable_ttl reach m addr p.max_ttl p.attempts p.ttl_cache_ttl
      guard (not (is_unset_int found.0)) (msg "reachable ttl not found")
      calculated (m.calc_ttl found.0))
