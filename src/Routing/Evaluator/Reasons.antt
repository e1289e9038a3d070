-- ===== src/Routing/Evaluator/Reasons.antt =====
-- The reasons that there are for a result of `genPolicy`.
use enimul.Common.{
  Bool, true, false, Option, none, some, ◌≡◌, refl, ◌⊎◌, inl, inr, Bool-cases, Bytes, bytes_eq,
}
use enimul.Common.Int.{ℤ}
use enimul.Common.Result.{Error}
use enimul.Modes.{DnsMode}
use enimul.Outcome.{Outcome, ok, failed, ◌>>=◌}
use enimul.Outcome.Ensures.{Ensures, returns, fails}
use enimul.Netip.{Addr}
use enimul.Dst.{Dst, new_single_dst, is_multi, get_single}
use enimul.Policy.{Policy}
use enimul.Routing.{get_ip_policy, get_hosts, strip_no_redirect_prefix, ip_redirect}
use enimul.Routing.Redirection.{Returns, Redirected}
use enimul.Routing.Evaluator.{
  Evaluator, Generated, chosen, gave_up, blocked, domain_not_found, is_block, attempt, base_policy,
  full_policy, unless_blocked, self,
}

-- The text that names the destination of a name: the policy's own, or that of the table of hosts.
pub data Written (e : Evaluator) (domain : Option Policy) (origin t : Bytes) : Type 0 where
  by_domain : get_single (base_policy e.matcher domain).host ≡ ok t → Written e domain origin t
  by_hosts :
      (h : Dst)
      → get_hosts e.matcher origin ≡ some h
      → get_single h ≡ ok t
      → Written e domain origin t

-- A call that returned an error.
pub data Fault (e : Evaluator) : Type 0 where
  of_redirection :
      (s : Bytes) (x : Error) → ip_redirect e.net e.get_dst_from e.matcher s ≡ failed x → Fault e
  of_pool : (tag : Bytes) (x : Error) → e.get_dst_from tag ≡ failed x → Fault e
  of_name :
      (n : Bytes) (mode : DnsMode) (ttl : ℤ) (x : Error) → e.resolve n mode ttl ≡ failed x → Fault e

-- Why the result of `genPolicy` is what it is, for a name or an address (`named` tells which). The
-- policy of the domain over the default one goes with a destination of several addresses, with the
-- origin itself ("self"), with a text written not to be redirected, and with one that `ipRedirect`
-- finds no policy for. Where it finds one, this goes in between, unless the merged policy blocks.
pub data Accountable (e : Evaluator) (named : Bool) (domain : Option Policy) (origin : Bytes)
    : Generated → Type 0 where
  on_error : Fault e → Accountable e named domain origin gave_up
  domain_blocks :
      (p : Policy)
      → domain ≡ some p
      → is_block p.mode ≡ true
      → Accountable e named domain origin blocked
  default_blocks :
      named ≡ false
      → is_block e.matcher.default_policy.mode ≡ true
      → Accountable e named domain origin blocked
  address_blocks :
      (s : Bytes) (ip : Addr) (q : Policy)
      → e.net.parsers.parse_addr s ≡ some ip
      → get_ip_policy e.matcher ip ≡ ok (some q)
      → is_block (full_policy e.matcher domain q).mode ≡ true
      → Accountable e named domain origin blocked
  not_in_hosts :
      named ≡ true
      → get_hosts e.matcher origin ≡ none
      → Accountable e named domain origin domain_not_found
  several :
      {host : Dst}
      → named ≡ true
      → is_multi host ≡ true
      → Accountable e named domain origin (chosen host (base_policy e.matcher domain))
  to_itself :
      (t : Bytes)
      → named ≡ true
      → Written e domain origin t
      → bytes_eq (strip_no_redirect_prefix t).0 self ≡ true
      → Accountable e named domain origin
          (chosen (new_single_dst origin) (base_policy e.matcher domain))
  as_written :
      (s t : Bytes)
      → named ≡ true
      → Written e domain origin t
      → (strip_no_redirect_prefix t).1 ≡ true
      → Accountable e named domain origin (chosen (new_single_dst s) (base_policy e.matcher domain))
  without_policy :
      {host : Dst} (s : Bytes)
      → (named ≡ true) ⊎ (s ≡ origin)
      → ip_redirect e.net e.get_dst_from e.matcher s ≡ ok (host, none)
      → Redirected e.net e.matcher s (host, none)
      → Accountable e named domain origin (chosen host (base_policy e.matcher domain))
  redirected :
      {host : Dst} (s : Bytes) (ip : Addr) (q : Policy)
      → (named ≡ true) ⊎ (s ≡ origin)
      → ip_redirect e.net e.get_dst_from e.matcher s ≡ ok (host, some q)
      → e.net.parsers.parse_addr s ≡ some ip
      → get_ip_policy e.matcher ip ≡ ok (some q)
      → is_block (full_policy e.matcher domain q).mode ≡ false
      → Accountable e named domain origin (chosen host (full_policy e.matcher domain q))

pub Returns-bind :
    {A : Type 0} {B : Type 0} {Q : B → Type 0} {o : Outcome A} {k : A → Outcome B}
    → Returns o
    → ((a : A) → o ≡ ok a → Ensures Q (k a))
    → Ensures Q (o >>= k)
Returns-bind (returns {a} _) f = f a refl
Returns-bind fails f = fails

module _ (e : Evaluator) (named : Bool) (domain : Option Policy) (origin : Bytes) where
  pub attempt-Answers :
      {A : Type 0} {Q : A → Type 0} {o : Outcome A} {k : A → Outcome Generated}
      → Ensures Q o
      → ((x : Error) → o ≡ failed x → Fault e)
      → ((a : A) → Q a → o ≡ ok a → Ensures (Accountable e named domain origin) (k a))
      → Ensures (Accountable e named domain origin) (attempt o k)
  attempt-Answers (returns {a} q) why f = f a q refl
  attempt-Answers (fails {e = x}) why f = returns (on_error (why x refl))

  pub unless_blocked-Answers :
      (host : Dst) (s : Bytes) (ip : Addr) (q : Policy)
      → (named ≡ true) ⊎ (s ≡ origin)
      → ip_redirect e.net e.get_dst_from e.matcher s ≡ ok (host, some q)
      → e.net.parsers.parse_addr s ≡ some ip
      → get_ip_policy e.matcher ip ≡ ok (some q)
      → Ensures
          (Accountable e named domain origin)
          (ok (unless_blocked host (full_policy e.matcher domain q)))
  unfolding unless_blocked
  unless_blocked-Answers host s ip q where_from run parsed found =
      elim (Bool-cases (is_block (full_policy e.matcher domain q).mode)) [
        | inl y ↦ rw (y, unless_blocked) (returns (address_blocks s ip q parsed found y))
        | inr y ↦ rw (y, unless_blocked) (returns (redirected s ip q where_from run parsed found y))
      ]
