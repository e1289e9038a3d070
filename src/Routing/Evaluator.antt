-- ===== src/Routing/Evaluator.antt =====
-- internal/core/policy.go: `genPolicy`, the destination and the policy of a connection.
pub mod Reasons
pub mod Steps
pub mod Origin
use enimul.Common.{
  ℕ, Bool, true, false, not, ◌&&◌, ◌||◌, Option, none, some, List, [], ◌∷◌, if◌then◌else◌, Bytes,
  bytes_eq, drop, has_prefix,
}
use enimul.Common.Int.{ℤ}
use enimul.Outcome.{Outcome, ok, failed, panic, ◌>>=◌}
use enimul.Modes.{Mode, mode_block, DnsMode}
use enimul.Dst.{Dst, new_single_dst, is_multi, get_single, is_zero}
use enimul.Policy.{Policy}
use enimul.Policy.Merge.{merge_policies}
use enimul.Routing.{
  Net, RouteMatcher, get_domain_policy, get_hosts, pool_tag, strip_no_redirect_prefix, ip_redirect,
}

-- `policyEvaluator`, with the methods of its resolver and of its pools' manager that it calls, and
-- `net.ParseIP(s) != nil`.
pub record Evaluator : Type 0 where
  pub net : Net
  pub matcher : RouteMatcher
  pub get_dst_from : Bytes → Outcome Dst
  pub resolve : Bytes → DnsMode → ℤ → Outcome Dst
  pub is_ip_text : Bytes → Bool

-- The results of `genPolicy`: a destination with its policy, or one of the three flags.
pub data Generated : Type 0 where
  chosen : Dst → Policy → Generated
  gave_up blocked domain_not_found : Generated

unfoldable pub is_block : Mode → Bool
is_block mode_block = true
is_block _ = false

-- `if err != nil { logger.Error(...); return nil, nil, true, false, false }`
abbrev pub attempt : {A : Type 0} → Outcome A → (A → Outcome Generated) → Outcome Generated
attempt panic k = panic
attempt (failed e) k = ok gave_up
attempt (ok a) k = k a

-- `mergePolicies(domainPolicy, e.defaultPolicy)` or the default policy itself.
unfoldable pub base_policy : RouteMatcher → Option Policy → Policy
unfolding merge_policies
base_policy m none = m.default_policy
base_policy m (some p) = merge_policies (p ∷ m.default_policy ∷ [])

unfoldable pub full_policy : RouteMatcher → Option Policy → Policy → Policy
unfolding merge_policies
full_policy m none q = merge_policies (q ∷ m.default_policy ∷ [])
full_policy m (some p) q = merge_policies (p ∷ q ∷ m.default_policy ∷ [])

unfoldable pub unless_blocked : Dst → Policy → Generated
unfolding is_block
unless_blocked host p = if is_block p.mode then blocked else chosen host p

-- The branch for an address.
unfoldable pub gen_ip_policy : Evaluator → Bytes → Outcome Generated
unfolding ip_redirect full_policy unless_blocked
gen_ip_policy e origin =
    attempt (ip_redirect e.net e.get_dst_from e.matcher origin) (λ (host, found). elim found [
      | none ↦ ok (unless_blocked host e.matcher.default_policy)
      | some q ↦ ok (unless_blocked host (full_policy e.matcher none q))
    ])

-- From `if noRedirect` on.
unfoldable pub redirect_single :
    Evaluator → Option Policy → Policy → Bool → Bytes → Outcome Generated
unfolding ip_redirect full_policy unless_blocked new_single_dst
redirect_single e domain p no_redirect single =
    if no_redirect
    then ok (chosen (new_single_dst single) p)
    else attempt (ip_redirect e.net e.get_dst_from e.matcher single) (λ (mapped, found).
      elim found [
        | none ↦ ok (chosen mapped p)
        | some q ↦ ok (unless_blocked mapped (full_policy e.matcher domain q))
      ])

-- A destination that was looked up is final where it has several addresses.
unfoldable pub with_single : Dst → Policy → (Bytes → Outcome Generated) → Outcome Generated
unfolding is_multi get_single
with_single dst p k = if is_multi dst then ok (chosen dst p) else get_single dst >>= k

-- `if !fromDNS`: the tag of a pool.
unfoldable pub from_pool :
    Evaluator → Policy → (Bytes → Outcome Generated) → Bytes → Outcome Generated
unfolding with_single has_prefix
from_pool e p k single =
    if has_prefix single pool_tag
    then attempt (e.get_dst_from (drop 1 single)) (λ cur. with_single cur p k)
    else k single

abbrev pub resolve_prefix : Bytes
resolve_prefix = b'?' ∷ []

-- The look-up of a name that stands behind "?", then the pools where no name was looked up.
unfoldable pub from_alias :
    Evaluator → Policy → (Bytes → Outcome Generated) → Bool → Bytes → Outcome Generated
unfolding with_single from_pool has_prefix
from_alias e p k from_dns single =
    if has_prefix single resolve_prefix
    then attempt (e.resolve (drop 1 single) p.dns_mode p.dns_cache_ttl) (λ d. with_single d p k)
    else if from_dns
    then k single
    else from_pool e p k single

abbrev pub self : Bytes
self = b's' ∷ b'e' ∷ b'l' ∷ b'f' ∷ []

-- From `if single == "self"` on.
unfoldable pub gen_single :
    Evaluator → Option Policy → Policy → Bytes → Bool → Bytes → Outcome Generated
unfolding from_alias redirect_single with_single bytes_eq new_single_dst
gen_single e domain p origin no_redirect single =
    let k = redirect_single e domain p no_redirect in
    if bytes_eq single self
    then ok (chosen (new_single_dst origin) p)
    else if bytes_eq single []
    then attempt (e.resolve origin p.dns_mode p.dns_cache_ttl)
        (λ d. with_single d p (from_alias e p k true))
    else from_alias e p k false single

-- The choice of the host, from the policy or from the table of hosts.
unfoldable pub gen_from_hosts :
    Evaluator → Option Policy → Policy → Bytes → Bool → Bytes × Bool → Outcome Generated
unfolding gen_single with_single strip_no_redirect_prefix get_hosts
gen_from_hosts e domain p origin return_not_found (single, no_redirect) =
    elim (get_hosts e.matcher origin) [
      | some h ↦
          with_single h p
            (λ s. let (t, flag) = strip_no_redirect_prefix s in gen_single e domain p origin flag t)
      | none ↦
          if return_not_found
          then ok domain_not_found
          else gen_single e domain p origin no_redirect single
    ]

unfoldable pub gen_host : Evaluator → Option Policy → Policy → Bytes → Bool → Outcome Generated
unfolding gen_from_hosts gen_single with_single strip_no_redirect_prefix is_zero bytes_eq
gen_host e domain p origin return_not_found = with_single p.host p (λ s.
    let (single, no_redirect) = strip_no_redirect_prefix s in
    if is_zero p.host || bytes_eq single []
    then gen_from_hosts e domain p origin return_not_found (single, no_redirect)
    else gen_single e domain p origin no_redirect single)

-- The branch for a name.
unfoldable pub gen_domain_policy : Evaluator → Bytes → Bool → Outcome Generated
unfolding gen_host base_policy get_domain_policy is_block
gen_domain_policy e origin return_not_found = elim (get_domain_policy e.matcher origin) [
  | some d ↦
      if is_block d.mode
      then ok blocked
      else gen_host e (some d) (base_policy e.matcher (some d)) origin return_not_found
  | none ↦ gen_host e none (base_policy e.matcher none) origin return_not_found
]

-- `genPolicy`, without its log.
unfoldable pub gen_policy : Evaluator → Bytes → Bool → Bool → Outcome Generated
unfolding gen_ip_policy gen_domain_policy
gen_policy e origin is_ip return_not_found =
    if is_ip || e.is_ip_text origin
    then gen_ip_policy e origin
    else gen_domain_policy e origin return_not_found
