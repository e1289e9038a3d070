-- ===== src/Routing/Evaluator/Steps.antt =====
-- The steps of `genPolicy`: where the policy that each of them gives comes from.
use enimul.Common.{
  Bool, true, false, ◌||◌, Option, none, some, [], ◌≡◌, refl, inl, inr, arith, if◌then◌else◌,
  Bool-cases, Option-cases, Bytes, bytes_eq, drop, has_prefix,
}
use enimul.Common.Int.{ℤ}
use enimul.Outcome.{Outcome, ok}
use enimul.Outcome.Ensures.{Ensures, returns}
use enimul.Modes.{DnsMode}
use enimul.Dst.{Dst, is_multi, get_single, is_zero}
use enimul.Policy.{Policy}
use enimul.Routing.{get_hosts, pool_tag, strip_no_redirect_prefix, ip_redirect}
use enimul.Routing.Redirection.{Returns, Redirected}
use enimul.Routing.Evaluator.Reasons.{
  of_redirection, of_pool, of_name, Written, by_domain, by_hosts, Accountable, not_in_hosts,
  several, to_itself, as_written, without_policy, Returns-bind, attempt-Answers,
  unless_blocked-Answers,
}
use enimul.Routing.Evaluator.{
  Evaluator, Generated, chosen, base_policy, full_policy, unless_blocked, redirect_single,
  with_single, from_pool, resolve_prefix, from_alias, self, gen_single, gen_from_hosts, gen_host,
}

module _ (e : Evaluator) (domain : Option Policy) (origin : Bytes)
    (redirects : (host : Bytes)
      → Ensures (Redirected e.net e.matcher host) (ip_redirect e.net e.get_dst_from e.matcher host))
    (pools : (tag : Bytes) → Ensures (λ d. Returns (get_single d)) (e.get_dst_from tag))
    (names : (n : Bytes) (mode : DnsMode) (ttl : ℤ)
      → Ensures (λ d. Returns (get_single d)) (e.resolve n mode ttl))
    (hosts : (h : Dst) → get_hosts e.matcher origin ≡ some h → Returns (get_single h)) where
  abbrev Answers : Outcome Generated → Type 0
  Answers o = Ensures (Accountable e true domain origin) o

  redirect_single-Answers :
      (t single : Bytes)
      → Written e domain origin t
      → Answers (
          redirect_single e domain
            (base_policy e.matcher domain)
            (strip_no_redirect_prefix t).1
            single)
  unfolding redirect_single Redirected
  redirect_single-Answers t single w = elim (Bool-cases (strip_no_redirect_prefix t).1) [
    | inl y ↦ rw (y, redirect_single) (returns (as_written single t refl w y))
    | inr y ↦
        rw (y, redirect_single)
          (attempt-Answers e true domain origin (redirects single) (of_redirection single) go)
  ]
    where
      go :
          (r : Dst × Option Policy)
          → Redirected e.net e.matcher single r
          → ip_redirect e.net e.get_dst_from e.matcher single ≡ ok r
          → Answers (elim r.1 [
            | none ↦ ok (chosen r.0 (base_policy e.matcher domain))
            | some q ↦ ok (unless_blocked r.0 (full_policy e.matcher domain q))
          ])
      go (mapped, none) h run = returns (without_policy single (inl refl) run h)
      go (mapped, some q) (inr (ip, parsed, found)) run =
          unless_blocked-Answers e true domain origin mapped single ip q (inl refl) run parsed found
      go (mapped, some q) (inl (x, same)) run = ground arith

  abbrev base : Policy
  base = base_policy e.matcher domain

  with_single-Answers :
      (dst : Dst) {k : Bytes → Outcome Generated}
      → Returns (get_single dst)
      → ((s : Bytes) → get_single dst ≡ ok s → Answers (k s))
      → Answers (with_single dst base k)
  unfolding with_single
  with_single-Answers dst single f = elim (Bool-cases (is_multi dst)) [
    | inl y ↦ rw (y, with_single) (returns (several refl y))
    | inr y ↦ rw (y, with_single) (Returns-bind single f)
  ]

  from_pool-Answers :
      {k : Bytes → Outcome Generated} (single : Bytes)
      → ((s : Bytes) → Answers (k s))
      → Answers (from_pool e base k single)
  unfolding from_pool
  from_pool-Answers single f = elim (Bool-cases (has_prefix single pool_tag)) [
    | inl y ↦
        rw (y, from_pool)
          (attempt-Answers e true domain origin (pools (drop 1 single)) (of_pool (drop 1 single))
            (λ cur h _. with_single-Answers cur h (λ s _. f s)))
    | inr y ↦ rw (y, from_pool) (f single)
  ]

  from_alias-Answers :
      {k : Bytes → Outcome Generated} (from_dns : Bool) (single : Bytes)
      → ((s : Bytes) → Answers (k s))
      → Answers (from_alias e base k from_dns single)
  unfolding from_alias
  from_alias-Answers from_dns single f = elim (Bool-cases (has_prefix single resolve_prefix)) [
    | inl y ↦
        rw (y, from_alias)
          (attempt-Answers e true domain origin (names _ _ _) (of_name _ _ _)
            (λ d h _. with_single-Answers d h (λ s _. f s)))
    | inr y ↦ elim (Bool-cases from_dns) [
      | inl z ↦ rw (y, z, from_alias) (f single)
      | inr z ↦ rw (y, z, from_alias) (from_pool-Answers single f)
    ]
  ]

  gen_single-Answers :
      (t : Bytes)
      → Written e domain origin t
      → Answers (
          gen_single e domain base origin
            (strip_no_redirect_prefix t).1
            (strip_no_redirect_prefix t).0)
  unfolding gen_single
  gen_single-Answers t w =
      let single = (strip_no_redirect_prefix t).0 in
      elim (Bool-cases (bytes_eq single self)) [
        | inl y ↦ rw (y, gen_single) (returns (to_itself t refl w y))
        | inr y ↦ elim (Bool-cases (bytes_eq single [])) [
          | inl z ↦
              rw (y, z, gen_single)
                (attempt-Answers e true domain origin (names _ _ _) (of_name _ _ _) (λ d h _.
                  with_single-Answers d h
                    (λ s _. from_alias-Answers true s (λ x. redirect_single-Answers t x w))))
          | inr z ↦
              rw (y, z, gen_single)
                (from_alias-Answers false single (λ x. redirect_single-Answers t x w))
        ]
      ]

  gen_from_hosts-Answers :
      (return_not_found : Bool) (t : Bytes)
      → Written e domain origin t
      → Answers (gen_from_hosts e domain base origin return_not_found (strip_no_redirect_prefix t))
  unfolding gen_from_hosts
  gen_from_hosts-Answers return_not_found t w = elim (Option-cases (get_hosts e.matcher origin)) [
    | inr (h, found) ↦
        rw (found, gen_from_hosts)
          (with_single-Answers h (hosts h found)
            (λ s read. gen_single-Answers s (by_hosts h found read)))
    | inl none_found ↦ elim (Bool-cases return_not_found) [
      | inl y ↦ rw (none_found, y, gen_from_hosts) (returns (not_in_hosts refl none_found))
      | inr y ↦ rw (none_found, y, gen_from_hosts) (gen_single-Answers t w)
    ]
  ]

  pub gen_host-Accountable :
      (return_not_found : Bool)
      → Returns (get_single base.host)
      → Answers (gen_host e domain base origin return_not_found)
  unfolding gen_host
  gen_host-Accountable return_not_found single = with_single-Answers base.host single by_single
    where
      by_single :
          (s : Bytes)
          → get_single base.host ≡ ok s
          → Answers (
              let (single, no_redirect) = strip_no_redirect_prefix s in
              if is_zero base.host || bytes_eq single []
              then gen_from_hosts e domain base origin return_not_found (single, no_redirect)
              else gen_single e domain base origin no_redirect single)
      by_single s read =
          elim (Bool-cases (is_zero base.host || bytes_eq (strip_no_redirect_prefix s).0 [])) [
            | inl y ↦ rw y (gen_from_hosts-Answers return_not_found s (by_domain read))
            | inr y ↦ rw y (gen_single-Answers s (by_domain read))
          ]
