-- ===== src/Builder.antt =====
-- internal/core/core.go: the builder, which merges the configurations into the tables of the router.
pub mod Options
pub mod Tables
pub mod Addresses
pub mod Router
mod Tests
use Prim.Native.String.{String}
use enimul.Common.{
  ℕ, Bool, true, false, Option, none, some, List, [], ◌∷◌, ◌++◌, ◌==◌, if◌then◌else◌, Bytes,
  bytes_eq, contains_byte,
}
use enimul.Common.Result.{Error, msg_with, op_error, Result, err}
use enimul.Outcome.{Outcome, ok, failed, panic, ◌>>=◌}
use enimul.Netip.{Parsers}
use enimul.AddrTrie.BitTrie.{BitNode}
use enimul.AddrTrie.Ip.{insert_ipv4, insert_ipv6, new_trie}
use enimul.AddrTrie.Domain.{LabelNode, fresh}
use enimul.AddrTrie.Domain.Routes.{add_or_keep}
use enimul.Dst.{Dst, zero_dst}
use enimul.Dial.{BindingOption, zero_binding}
use enimul.Jsonx.OrderedMap.{OrderedMap, all}
use enimul.Pattern.{split, expand_pattern}
use enimul.Policy.{Policy, PolicyOptions, init_policy}
use enimul.Policy.Checks.{new_policy}
use enimul.Routing.{RouteMatcher}
use enimul.Builder.Options.{
  Level, level_unset, level_info, DnsConfig, TtlProbingConfig, IpPoolOptions, Config, zero_dns,
  zero_ttl, zero_options,
}

-- `Builder`. The pointers to strings and options are their values.
pub record Builder : Type 0 where
  pub log_level : Level
  pub log_output : Bytes
  pub socks5_addr : Bytes
  pub http_addr : Bytes
  pub sni_proxy_addr : Bytes
  pub outbound_binding : BindingOption
  pub dns_config : DnsConfig
  pub ttl_probing_config : TtlProbingConfig
  pub ip_pools : List (Bytes × IpPoolOptions)
  pub hosts : LabelNode Dst
  pub default_policy : Policy
  pub domain_policies : LabelNode Policy
  pub ipv4_policies : BitNode Policy
  pub ipv6_policies : BitNode Policy

-- `NewBuilder`
abbrev pub new_builder : Builder
new_builder = record {
  log_level = level_info;
  log_output = [];
  socks5_addr = [];
  http_addr = [];
  sni_proxy_addr = [];
  outbound_binding = zero_binding;
  dns_config = zero_dns;
  ttl_probing_config = zero_ttl;
  ip_pools = [];
  hosts = fresh;
  default_policy = init_policy;
  domain_policies = fresh;
  ipv4_policies = new_trie;
  ipv6_policies = new_trie;
}

-- `E.WithStr` and `fmt.Errorf` around an error.
abbrev pub annotate {ℓ} : {A : Type ℓ} → String → Outcome A → Outcome A
annotate what panic = panic
annotate what (failed e) = failed (op_error what e)
annotate what (ok a) = ok a

-- `_, ok := b.ipPools[tag]`
unfoldable pub has_pool : Bytes → List (Bytes × IpPoolOptions) → Bool
unfolding bytes_eq
has_pool tag [] = false
has_pool tag ((t, o) ∷ pools) = if bytes_eq t tag then true else has_pool tag pools

-- The loop over the pools of a configuration, into a map that is not empty.
unfoldable pub add_pools :
    List (Bytes × IpPoolOptions)
    → List (Bytes × IpPoolOptions)
    → Outcome (List (Bytes × IpPoolOptions))
unfolding has_pool
add_pools [] pools = ok pools
add_pools ((tag, o) ∷ new_pools) pools =
    let rest = add_pools new_pools (pools ++ (tag, o) ∷ []) in
    if has_pool tag pools then failed (msg_with "duplicate ip pool tag" tag) else rest

-- The pools of the merged builder.
unfoldable pub merge_pools :
    List (Bytes × IpPoolOptions)
    → List (Bytes × IpPoolOptions)
    → Outcome (List (Bytes × IpPoolOptions))
unfolding add_pools
merge_pools [] new_pools = ok new_pools
merge_pools (p ∷ pools) new_pools = add_pools new_pools (p ∷ pools)

abbrev pub policy_of : PolicyOptions → Outcome Policy
policy_of o = annotate "invalid policy" (new_policy o)

-- The loops over the elements of a key and over what each expands to, for a matcher of domains.
unfoldable pub add_patterns {ℓ} : {T : Type ℓ} → List Bytes → T → LabelNode T → LabelNode T
unfolding add_or_keep
add_patterns [] v t = t
add_patterns (p ∷ ps) v t = add_patterns ps v (add_or_keep p v t)

unfoldable pub add_elems {ℓ} : {T : Type ℓ} → List Bytes → T → LabelNode T → Outcome (LabelNode T)
unfolding expand_pattern add_patterns
add_elems [] v t = ok t
add_elems (e ∷ es) v t = do ps ← expand_pattern e; add_elems es v (add_patterns ps v t)

-- The loops over `DomainPolicies` and over `Hosts`, which has its values as they are.
unfoldable pub merge_names {ℓ κ} :
    {O : Type κ} {T : Type ℓ}
    → (O → Outcome T)
    → List (Bytes × O)
    → LabelNode T
    → Outcome (LabelNode T)
unfolding add_elems split
merge_names value [] t = ok t
merge_names value ((patterns, o) ∷ rest) t = do
  v ← value o
  t' ← add_elems (split patterns b';') v t
  merge_names value rest t'

-- The tries of the two address families.
pub record IpTables : Type 0 where
  pub ipv4 : BitNode Policy
  pub ipv6 : BitNode Policy

abbrev pub of_result {ℓ} : {A : Type ℓ} → Result A → Outcome A
of_result (Result.err e) = failed (op_error "invalid ip/cidr" e)
of_result (Result.ok a) = ok a

-- One insertion: a text with a colon goes to IPv6.
unfoldable pub insert_ip : Parsers → Bytes → Policy → IpTables → Outcome IpTables
unfolding contains_byte insert_ipv4 insert_ipv6
insert_ip np s v t =
    if contains_byte b':' s
    then (of_result (insert_ipv6 np t.ipv6 s v) >>= λ u. ok (record t { ipv6 = u }))
    else (of_result (insert_ipv4 np t.ipv4 s v) >>= λ u. ok (record t { ipv4 = u }))

unfoldable pub insert_ips : Parsers → List Bytes → Policy → IpTables → Outcome IpTables
unfolding insert_ip
insert_ips np [] v t = ok t
insert_ips np (s ∷ ss) v t = do t' ← insert_ip np s v t; insert_ips np ss v t'

unfoldable pub insert_elems : Parsers → List Bytes → Policy → IpTables → Outcome IpTables
unfolding expand_pattern insert_ips
insert_elems np [] v t = ok t
insert_elems np (e ∷ es) v t = do
  ps ← expand_pattern e
  t' ← insert_ips np ps v t
  insert_elems np es v t'

-- The loop over `IpPolicies`.
unfoldable pub merge_ips : Parsers → List (Bytes × PolicyOptions) → IpTables → Outcome IpTables
unfolding insert_elems split
merge_ips np [] t = ok t
merge_ips np ((patterns, o) ∷ rest) t = do
  v ← policy_of o
  t' ← insert_elems np (split patterns b';') v t
  merge_ips np rest t'

abbrev pub merge_default : Option PolicyOptions → Policy → Outcome Policy
merge_default none old = ok old
merge_default (some o) old = annotate "invalid default_policy" (new_policy o)

-- `if new != nil { field = new }`
abbrev pub given {ℓ} : {A : Type ℓ} → Option A → A → A
given none old = old
given (some new) old = new

unfoldable pub level_or : Level → Level → Level
level_or level_unset old = old
level_or new old = new

-- `Builder.Merge`. What an error leaves in the builder is left out: `main` ends on one.
unfoldable pub merge : Parsers → Config → Builder → Outcome Builder
unfolding merge_pools merge_names merge_ips all level_or
merge np cfg b = do
  pools ← merge_pools b.ip_pools cfg.ip_pools
  default_policy ← merge_default cfg.default_policy b.default_policy
  domains ← merge_names policy_of (all zero_options cfg.domain_policies) b.domain_policies
  ips ←
      merge_ips np (all zero_options cfg.ip_policies)
        (record { ipv4 = b.ipv4_policies; ipv6 = b.ipv6_policies })
  hosts ← merge_names Outcome.ok (all zero_dst cfg.hosts) b.hosts
  ok (record {
    log_level = level_or cfg.log_level b.log_level;
    log_output = given cfg.log_output b.log_output;
    socks5_addr = given cfg.socks5_addr b.socks5_addr;
    http_addr = given cfg.http_addr b.http_addr;
    sni_proxy_addr = given cfg.sni_proxy_addr b.sni_proxy_addr;
    outbound_binding = given cfg.outbound_binding b.outbound_binding;
    dns_config = given cfg.dns_config b.dns_config;
    ttl_probing_config = given cfg.ttl_probing_config b.ttl_probing_config;
    ip_pools = pools;
    hosts = hosts;
    default_policy = default_policy;
    domain_policies = domains;
    ipv4_policies = ips.ipv4;
    ipv6_policies = ips.ipv6;
  })

-- The loop of `main` over the configurations.
unfoldable pub merge_all : Parsers → List Config → Builder → Outcome Builder
unfolding merge
merge_all np [] b = ok b
merge_all np (cfg ∷ cfgs) b = do b' ← merge np cfg b; merge_all np cfgs b'

-- The `routeMatcher` of `Builder.Build`.
unfoldable pub route_matcher : Builder → RouteMatcher
route_matcher b = record {
  default_policy = b.default_policy;
  domain_policies = b.domain_policies;
  ipv4_policies = b.ipv4_policies;
  ipv6_policies = b.ipv6_policies;
  hosts = b.hosts;
}
