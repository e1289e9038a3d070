-- ===== src/Routing/Redirection.antt =====
-- What `ipRedirect` and `preMapIP` make of an address.
use enimul.Common.{
  ℕ, Bool, true, false, Option, none, some, [], ◌≡◌, refl, ap, ◌∙◌, ◌⊎◌, inl, inr, arith,
  if◌then◌else◌, Bool-cases, Option-cases, Bytes, bytes_eq, contains_byte, has_prefix, drop,
}
use enimul.Outcome.{Outcome, ok, failed, panic, ◌>>=◌}
use enimul.Outcome.Ensures.{Ensures, returns, fails, Ensures-bind, Ensures-guard}
use enimul.Netip.{Addr, invalid, v4, v6, is4, as4, Prefix}
use enimul.Dst.{Dst, new_single_dst, is_multi, get_single, is_zero}
use enimul.Policy.{Policy}
use enimul.Routing.{
  Net, RouteMatcher, get_ip_policy, transform_addr, same, transform_ip, pool_tag, pre_map_ip,
  redirect_to, ip_redirect,
}

-- No panic, and nothing said of the result.
abbrev pub Returns {ℓ} : {A : Type ℓ} → Outcome A → Type ℓ
Returns m = Ensures (λ _. Unit {0}) m

transform_addr-Returns :
    (bits : ℕ) (ip network : Addr)
    → same (is4 ip) (is4 network) ≡ true
    → Returns (transform_addr bits ip network)
unfolding transform_addr is4 as4
transform_addr-Returns bits invalid network h = returns tt
transform_addr-Returns bits (v6 hi lo) network h = returns tt
transform_addr-Returns bits (v4 a) (v4 n) h = returns tt
transform_addr-Returns bits (v4 a) (v6 hi lo) h = ground arith
transform_addr-Returns bits (v4 a) invalid h = ground arith

transform_ip-Returns :
    (net : Net) (ip : Addr) (target : Bytes)
    → ((p : Prefix) → is4 (net.masked p) ≡ is4 p.addr)
    → Returns (transform_ip net ip target)
unfolding transform_ip
transform_ip-Returns net ip target keeps = elim (Option-cases (net.parsers.parse_prefix target)) [
  | inl e ↦ rw (e, transform_ip) fails
  | inr (p, e) ↦
      rw (e, transform_ip)
        (Ensures-guard (same (is4 ip) (is4 p.addr)) _ (λ agree.
          Ensures-bind
            (transform_addr-Returns p.bits ip (net.masked p) (ap (same (is4 ip)) (keeps p) ∙ agree))
            (λ a _. returns tt)))
]

redirect_to-Returns :
    (net : Net) (get_dst_from : Bytes → Outcome Dst) (host : Bytes) (ip : Addr) (map_to : Dst)
    → ((p : Prefix) → is4 (net.masked p) ≡ is4 p.addr)
    → ((tag : Bytes) → Returns (get_dst_from tag))
    → Returns (get_single map_to)
    → Returns (redirect_to net get_dst_from host ip map_to)
unfolding redirect_to
redirect_to-Returns net get_dst_from host ip map_to keeps pools single =
    elim (Bool-cases (is_zero map_to)) [
      | inl z ↦ rw (z, redirect_to) (returns tt)
      | inr z ↦ elim (Bool-cases (is_multi map_to)) [
        | inl m ↦ rw (z, m, redirect_to) (returns tt)
        | inr m ↦ rw (z, m, redirect_to) (Ensures-bind single (λ s _. by_single s))
      ]
    ]
  where
    by_single :
        (s : Bytes)
        → Returns (
            if bytes_eq s []
            then ok (new_single_dst host)
            else if has_prefix s pool_tag
            then get_dst_from (drop 1 s)
            else if contains_byte b'/' s
            then (transform_ip net ip s >>= λ transformed. ok (new_single_dst transformed))
            else ok (new_single_dst s))
    by_single s = elim (Bool-cases (bytes_eq s [])) [
      | inl a ↦ rw a (returns tt)
      | inr a ↦ elim (Bool-cases (has_prefix s pool_tag)) [
        | inl b ↦ rw (a, b) (pools (drop 1 s))
        | inr b ↦ elim (Bool-cases (contains_byte b'/' s)) [
          | inl c ↦
              rw (a, b, c) (Ensures-bind (transform_ip-Returns net ip s keeps) (λ t _. returns tt))
          | inr c ↦ rw (a, b, c) (returns tt)
        ]
      ]
    ]

-- What `ipRedirect` answers for `host`: itself, with no policy, where it is not an address, and else
-- the policy of the address.
unfoldable pub Redirected : Net → RouteMatcher → Bytes → Dst × Option Policy → Type 0
Redirected net m host r =
    ((net.parsers.parse_addr host ≡ none) × (r ≡ (new_single_dst host, none)))
    ⊎ ((ip : Addr) × (net.parsers.parse_addr host ≡ some ip) × (get_ip_policy m ip ≡ ok r.1))

-- `ipRedirect` does not panic, and it answers the policy of the address, or the host itself where it
-- is none, if the parser makes no zero address, masking a prefix keeps the family of its address,
-- the pools do not panic, and the policies found are those of addresses with a destination that
-- `Single` reads.
pub ip_redirect-Redirected :
    (net : Net) (get_dst_from : Bytes → Outcome Dst) (m : RouteMatcher) (host : Bytes)
    → ((p : Prefix) → is4 (net.masked p) ≡ is4 p.addr)
    → ((tag : Bytes) → Returns (get_dst_from tag))
    → ((ip : Addr)
        → net.parsers.parse_addr host ≡ some ip
        → Ensures
            (λ found. (p : Policy) → found ≡ some p → Returns (get_single p.map_to))
            (get_ip_policy m ip))
    → Ensures (Redirected net m host) (ip_redirect net get_dst_from m host)
unfolding ip_redirect Redirected
ip_redirect-Redirected net get_dst_from m host keeps pools usable =
    elim (Option-cases (net.parsers.parse_addr host)) [
      | inl e ↦ rw (e, ip_redirect) (returns (inl (e, refl)))
      | inr (ip, e) ↦ rw (e, ip_redirect) (with_policy ip e (get_ip_policy m ip) refl (usable ip e))
    ]
  where
    with_policy :
        (ip : Addr)
        → net.parsers.parse_addr host ≡ some ip
        → (o : Outcome (Option Policy)) → get_ip_policy m ip ≡ o
        → Ensures (λ found. (p : Policy) → found ≡ some p → Returns (get_single p.map_to)) o
        → Ensures (Redirected net m host) (
            o >>= λ found. elim found [
              | none ↦ ok (new_single_dst host, none)
              | some policy ↦ redirect_to net get_dst_from host ip policy.map_to >>= λ dst.
                  ok (dst, some policy)
            ])
    with_policy ip parsed (ok none) e u = returns (inr (ip, parsed, e))
    with_policy ip parsed (ok (some p)) e (returns u) =
        Ensures-bind (redirect_to-Returns net get_dst_from host ip p.map_to keeps pools (u p refl))
          (λ dst _. returns (inr (ip, parsed, e)))
    with_policy ip parsed (failed x) e u = fails
    with_policy ip parsed panic e u = elim u [ ]

-- `preMapIP` does not panic on a `map_to` that `Single` reads, where masking a prefix keeps the
-- family of its address; and the destination for a `map_to` that is set is `map_to` itself, also
-- for a network, where `ipRedirect` goes to the address that `transformIP` makes.
pub pre_map_ip-Ensures :
    (net : Net) (ip : Addr) (map_to : Dst)
    → ((p : Prefix) → is4 (net.masked p) ≡ is4 p.addr)
    → Returns (get_single map_to)
    → Ensures (λ (r : Dst × Bool). is_zero map_to ≡ false → r.0 ≡ map_to) (pre_map_ip net ip map_to)
unfolding pre_map_ip
pre_map_ip-Ensures net ip map_to keeps single = elim (Bool-cases (is_zero map_to)) [
  | inl z ↦ rw (z, pre_map_ip) (returns (λ h. ground arith))
  | inr z ↦ elim (Bool-cases (is_multi map_to)) [
    | inl m ↦ rw (z, m, pre_map_ip) (returns (λ _. refl))
    | inr m ↦ rw (z, m, pre_map_ip) (Ensures-bind single (λ s _. by_single s))
  ]
]
  where
    by_single :
        (s : Bytes)
        → Ensures
            (λ (r : Dst × Bool). false ≡ false → r.0 ≡ map_to)
            (if has_prefix s pool_tag
              then ok (map_to, true)
              else if contains_byte b'/' s
              then (transform_ip net ip s >>= λ transformed. ok (map_to, false))
              else ok (map_to, false))
    by_single s = elim (Bool-cases (has_prefix s pool_tag)) [
      | inl a ↦ rw a (returns (λ _. refl))
      | inr a ↦ elim (Bool-cases (contains_byte b'/' s)) [
        | inl b ↦
            rw (a, b)
              (Ensures-bind (transform_ip-Returns net ip s keeps) (λ t _. returns (λ _. refl)))
        | inr b ↦ rw (a, b) (returns (λ _. refl))
      ]
    ]
