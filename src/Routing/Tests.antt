-- ===== src/Routing/Tests.antt =====
-- Runs of the router.
use enimul.Common.{
  inl, inr, Bool-cases, subst, Bool, ◌≡◌, refl, true, false, none, some, List, [], ◌∷◌, arith,
  if◌then◌else◌, Bytes, bytes_eq,
}
use enimul.Common.Result.{Result, err}
use enimul.Outcome.{ok}
use enimul.Outcome.Ensures.{Ensures, returns}
use enimul.Netip.{Addr, v4, v6, Parsers}
use enimul.AddrTrie.BitTrie.{BitNode}
use enimul.AddrTrie.Domain.{fresh}
use enimul.AddrTrie.Ip.{insert_ipv4, insert_ipv6, new_trie}
use enimul.AddrTrie.Ip.Routes.{insert_all}
use enimul.Dst.{Dst, new_single_dst, zero_dst, get_single, is_zero}
use enimul.Policy.{Policy, init_policy}
use enimul.Routing.{Net, RouteMatcher, get_ip_policy, ip_redirect, pre_map_ip}
use enimul.Routing.Evaluator.{Evaluator}
use enimul.Routing.Tables.{route, get_ip_policy-route}
use enimul.Routing.Redirection.{Returns, Redirected, ip_redirect-Redirected, pre_map_ip-Ensures}

-- "1.2.3.4" and "10.0.0.0/8".
abbrev host : Bytes
host = b'1' ∷ b'.' ∷ b'2' ∷ b'.' ∷ b'3' ∷ b'.' ∷ b'4' ∷ []

abbrev net8 : Bytes
net8 = b'1' ∷ b'0' ∷ b'.' ∷ b'0' ∷ b'.' ∷ b'0' ∷ b'.' ∷ b'0' ∷ b'/' ∷ b'8' ∷ []

abbrev parsers : Parsers
parsers = record {
  parse_addr = λ s. if bytes_eq s host then some (v4 0x01020304) else none;
  parse_prefix =
      λ s. if bytes_eq s net8 then some (record { addr = v4 0x0a000000; bits = 8 }) else none;
}

-- A stand-in for the text of an address: 4 with its value for IPv4.
abbrev text : Addr → Bytes
text (v4 a) = 4 ∷ a ∷ []
text _ = []

abbrev net : Net
net = record { parsers = parsers; to_string = text; masked = λ p. p.addr }

abbrev mapped : Policy
mapped = record init_policy { map_to = record { single = net8; single_valid = true; multi = none } }

abbrev table4 : List (Bytes × Policy)
table4 = (host, mapped) ∷ []

abbrev or_fresh : Result (BitNode Policy) → BitNode Policy
or_fresh (Result.ok t) = t
or_fresh (err e) = new_trie

abbrev matcher : RouteMatcher
unfolding insert_ipv4
matcher = record {
  default_policy = init_policy;
  domain_policies = fresh;
  ipv4_policies = or_fresh (insert_all (insert_ipv4 parsers) table4 new_trie);
  ipv6_policies = new_trie;
  hosts = fresh;
}

get_ip_policy-route_example :
    get_ip_policy matcher (v6 0 0xffff01020304) ≡ ok (route parsers table4 [] (v6 0 0xffff01020304))
unfolding insert_ipv4 insert_ipv6 matcher
get_ip_policy-route_example =
    get_ip_policy-route parsers table4 [] matcher (v6 0 0xffff01020304) refl refl (ground arith)

get_ip_policy_run : get_ip_policy matcher (v6 0 0xffff01020304) ≡ ok (some mapped)
unfolding get_ip_policy matcher
get_ip_policy_run = refl

some_injective {ℓ} : {A : Type ℓ} {x y : A} → some x ≡ some y → x ≡ y
some_injective h = cc

usable_policy :
    Ensures
      (λ found. (p : Policy) → found ≡ some p → Returns (get_single p.map_to))
      (get_ip_policy matcher (v4 0x01020304))
unfolding get_ip_policy matcher get_single
usable_policy =
    returns
      (λ p same. subst (λ q. Returns (get_single q.map_to)) (some_injective same) (returns tt))

usable :
    (s : Bytes) (ip : Addr)
    → net.parsers.parse_addr s ≡ some ip
    → Ensures
        (λ found. (p : Policy) → found ≡ some p → Returns (get_single p.map_to))
        (get_ip_policy matcher ip)
usable s ip e = elim (Bool-cases (bytes_eq s host)) [
  | inl y ↦
      subst
        (λ a.
          Ensures (λ found. (p : Policy) → found ≡ some p → Returns (get_single p.map_to))
            (get_ip_policy matcher a))
        (some_injective (rw y at e)) usable_policy
  | inr y ↦ absurd (none_some (rw y at e))
]
  where
    none_some : {a : Addr} → none ≡ some a → ⊥
    none_some h = ground arith

ip_redirect-Redirected_example :
    Ensures (Redirected net matcher host) (ip_redirect net (λ tag. ok zero_dst) matcher host)
ip_redirect-Redirected_example =
    ip_redirect-Redirected net (λ tag. ok zero_dst) matcher host (λ p. refl) (λ tag. returns tt)
      (usable host)

ip_redirect_run :
    ip_redirect net (λ tag. ok zero_dst) matcher host
    ≡ ok (new_single_dst (4 ∷ 0x0a020304 ∷ []), some mapped)
unfolding ip_redirect matcher
ip_redirect_run = refl

pre_map_ip-Ensures_example :
    Ensures
      (λ (r : Dst × Bool). is_zero mapped.map_to ≡ false → r.0 ≡ mapped.map_to)
      (pre_map_ip net (v4 0x01020304) mapped.map_to)
unfolding get_single
pre_map_ip-Ensures_example =
    pre_map_ip-Ensures net (v4 0x01020304) mapped.map_to (λ p. refl) (returns tt)

pre_map_ip_run : pre_map_ip net (v4 0x01020304) mapped.map_to ≡ ok (new_single_dst net8, false)
unfolding pre_map_ip new_single_dst
pre_map_ip_run = refl

-- "a.b", which the resolver finds at 1.2.3.4.
abbrev name : Bytes
name = b'a' ∷ b'.' ∷ b'b' ∷ []

abbrev evaluator : Evaluator
evaluator = record {
  net = net;
  matcher = matcher;
  get_dst_from = λ tag. ok zero_dst;
  resolve = λ n mode ttl. ok (new_single_dst host);
  is_ip_text = λ s. bytes_eq s host;
}
