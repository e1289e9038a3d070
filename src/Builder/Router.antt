-- ===== src/Builder/Router.antt =====
-- The router over the configurations that `main` merges.
use mathlib.Core.List.{append_assoc}
use enimul.Common.{List, [], ◌∷◌, ◌++◌, ◌≡◌, ◌≢◌, refl, sym, ap, ◌∙◌, Bytes, subst}
use enimul.Outcome.{Outcome, ok, ok_injective, >>=-eq-ok}
use enimul.Netip.{Parsers, Addr, invalid}
use enimul.AddrTrie.Domain.{LabelNode, find}
use enimul.AddrTrie.Domain.Routes.{add_all, lookup_name, find-add_all}
use enimul.Dst.{Dst, zero_dst}
use enimul.Jsonx.OrderedMap.{all}
use enimul.Pattern.{split}
use enimul.Policy.{Policy, PolicyOptions}
use enimul.Routing.{get_ip_policy, get_domain_policy, get_hosts}
use enimul.Routing.Tables.{route, get_ip_policy-route}
use enimul.Builder.Options.{Config, zero_options}
use enimul.Builder.{
  Builder, new_builder, policy_of, merge_names, merge_default, merge_pools, IpTables, merge_ips,
  merge, merge_all, route_matcher,
}
use enimul.Builder.Tables.{rows_of, table, Adds, merge_names-Adds, add_all-append}
use enimul.Builder.Addresses.{
  rows_v4, rows_v6, Inserted, Inserted-append, Inserted-refl, merge_ips-Inserted,
}

-- A section of all configurations, in the order of the configurations.
unfoldable pub entries {κ} :
    {O : Type κ} → (Config → List (Bytes × O)) → List Config → List (Bytes × O)
entries part [] = []
entries part (cfg ∷ cfgs) = part cfg ++ entries part cfgs

abbrev pub domain_part : Config → List (Bytes × PolicyOptions)
domain_part cfg = all zero_options cfg.domain_policies

abbrev pub ip_part : Config → List (Bytes × PolicyOptions)
ip_part cfg = all zero_options cfg.ip_policies

abbrev pub host_part : Config → List (Bytes × Dst)
host_part cfg = all zero_dst cfg.hosts

table-append {ℓ κ} :
    {O : Type κ} {T : Type ℓ} (value : O → Outcome T) (xs ys : List (Bytes × O))
    {rows more : List (Bytes × T)}
    → table value xs ≡ ok rows
    → table value ys ≡ ok more
    → table value (xs ++ ys) ≡ ok (rows ++ more)
unfolding table
table-append value [] ys {more} h k = k ∙ ap (λ r. ok (r ++ more)) (ok_injective h)
table-append value ((patterns, o) ∷ xs) ys {more} h k =
    let (v, valid, from_value) = >>=-eq-ok (value o) _ h in
    let (first, here, from_first) = >>=-eq-ok (rows_of (split patterns b';') v) _ from_value in
    let (rest, others, joined) = >>=-eq-ok (table value xs) _ from_first in
    rw (valid, table)
      (rw here (
        rw (table-append value xs ys others k) (
          ap ok (sym (append_assoc first rest more))
          ∙ ap (λ r. ok (r ++ more)) (ok_injective joined))))

abbrev ips : Builder → IpTables
ips b = record { ipv4 = b.ipv4_policies; ipv6 = b.ipv6_policies }

-- The rows that were inserted for a section of the configurations.
abbrev InsertsIps : Parsers → List (Bytes × PolicyOptions) → Builder → Builder → Type 0
InsertsIps np part b b' =
    (es : List (Bytes × Policy)) × (table policy_of part ≡ ok es) × Inserted np es (ips b) (ips b')

-- What a merge does to the tables.
record Merges (np : Parsers) (domains : List (Bytes × PolicyOptions))
    (addresses : List (Bytes × PolicyOptions)) (hosts : List (Bytes × Dst)) (b b' : Builder)
    : Type 0 where
  for_domains : Adds (table policy_of domains) b.domain_policies b'.domain_policies
  for_ips : InsertsIps np addresses b b'
  for_hosts : Adds (table Outcome.ok hosts) b.hosts b'.hosts

merge-Merges :
    (np : Parsers) (cfg : Config) (b b' : Builder)
    → merge np cfg b ≡ ok b'
    → Merges np (domain_part cfg) (ip_part cfg) (host_part cfg) b b'
unfolding merge
merge-Merges np cfg b b' h =
    let (pools, _, h1) = >>=-eq-ok (merge_pools b.ip_pools cfg.ip_pools) _ h in
    let (fallback, _, h2) = >>=-eq-ok (merge_default cfg.default_policy b.default_policy) _ h1 in
    let (domains, by_domain, h3) =
      >>=-eq-ok (merge_names policy_of (domain_part cfg) b.domain_policies) _ h2 in
    let (addresses, by_ip, h4) = >>=-eq-ok (merge_ips np (ip_part cfg) (ips b)) _ h3 in
    let (hosts, by_host, h5) = >>=-eq-ok (merge_names Outcome.ok (host_part cfg) b.hosts) _ h4 in
    let same = ok_injective h5 in
    subst (Merges np (domain_part cfg) (ip_part cfg) (host_part cfg) b) same (record {
      for_domains =
          merge_names-Adds policy_of (domain_part cfg) b.domain_policies domains by_domain;
      for_ips = merge_ips-Inserted np (ip_part cfg) (ips b) addresses by_ip;
      for_hosts = merge_names-Adds Outcome.ok (host_part cfg) b.hosts hosts by_host;
    })

Adds-append {ℓ κ} :
    {O : Type κ} {T : Type ℓ} (value : O → Outcome T) (xs ys : List (Bytes × O))
    (t u w : LabelNode T)
    → Adds (table value xs) t u
    → Adds (table value ys) u w
    → Adds (table value (xs ++ ys)) t w
Adds-append value xs ys t u w (rows, h, e) (more, k, e') = (
  rows ++ more,
  table-append value xs ys h k,
  e' ∙ ap (add_all more) e ∙ sym (add_all-append rows more t),
)

merge_all-Merges :
    (np : Parsers) (cfgs : List Config) (b b' : Builder)
    → merge_all np cfgs b ≡ ok b'
    → Merges np (entries domain_part cfgs) (entries ip_part cfgs) (entries host_part cfgs) b b'
unfolding merge_all entries table add_all
merge_all-Merges np [] b b' h =
    let same = ok_injective h in
    record {
      for_domains = ([], refl, ap (λ c. c.domain_policies) (sym same));
      for_ips = ([], refl, Inserted-refl np _ _ (ap ips same));
      for_hosts = ([], refl, ap (λ c. c.hosts) (sym same));
    }
merge_all-Merges np (cfg ∷ cfgs) b b' h =
    let (u, first, rest) = >>=-eq-ok (merge np cfg b) _ h in
    let here = merge-Merges np cfg b u first in
    let behind = merge_all-Merges np cfgs u b' rest in
    let (rows, t1, in1) = here.for_ips in
    let (more, t2, in2) = behind.for_ips in
    record {
      for_domains =
          Adds-append policy_of (domain_part cfg) (entries domain_part cfgs) _ _ _ here.for_domains
            behind.for_domains;
      for_ips = (
        rows ++ more,
        table-append policy_of (ip_part cfg) (entries ip_part cfgs) t1 t2,
        Inserted-append np rows more _ _ _ in1 in2,
      );
      for_hosts =
          Adds-append Outcome.ok (host_part cfg) (entries host_part cfgs) _ _ _ here.for_hosts
            behind.for_hosts;
    }

-- After `NewBuilder` and merges of the configurations that all succeed, every key of the domain
-- policies and of the hosts had a valid policy and expanded to its patterns with no panic, and
-- `getDomainPolicy` and `getHosts` answer for every name what the tables of these patterns, in the
-- order of the configurations, say: an exact pattern first, then the longest wildcard, the later one
-- of equal ones.
pub merge_all-lookup_name :
    (np : Parsers) (cfgs : List Config) (b : Builder) (name : Bytes)
    → merge_all np cfgs new_builder ≡ ok b
    → ((es : List (Bytes × Policy)) × (table policy_of (entries domain_part cfgs) ≡ ok es)
        × (get_domain_policy (route_matcher b) name ≡ lookup_name es name))
      × ((hs : List (Bytes × Dst)) × (table Outcome.ok (entries host_part cfgs) ≡ ok hs)
          × (get_hosts (route_matcher b) name ≡ lookup_name hs name))
unfolding get_domain_policy get_hosts route_matcher
merge_all-lookup_name np cfgs b name h =
    let done = merge_all-Merges np cfgs new_builder b h in
    let (es, t1, e1) = done.for_domains in
    let (hs, t2, e2) = done.for_hosts in
    (
      (es, t1, ap (λ n. find n name) e1 ∙ find-add_all es name),
      (hs, t2, ap (λ n. find n name) e2 ∙ find-add_all hs name),
    )

-- After `NewBuilder` and merges of the configurations that all succeed, every key of the IP policies
-- had a valid policy and expanded with no panic, and `getIPPolicy` answers for every valid address,
-- with no panic, the policy of the longest match in the rows of its family: those with a colon for
-- IPv6, the others for IPv4, in the order of the configurations.
pub merge_all-route :
    (np : Parsers) (cfgs : List Config) (b : Builder) (ip : Addr)
    → merge_all np cfgs new_builder ≡ ok b
    → ip ≢ invalid
    → (es : List (Bytes × Policy)) × (table policy_of (entries ip_part cfgs) ≡ ok es)
      × (get_ip_policy (route_matcher b) ip ≡ ok (route np (rows_v4 es) (rows_v6 es) ip))
unfolding route_matcher
merge_all-route np cfgs b ip h valid =
    let done = merge_all-Merges np cfgs new_builder b h in
    let (es, t, (in4, in6)) = done.for_ips in
    (es, t, get_ip_policy-route np (rows_v4 es) (rows_v6 es) (route_matcher b) ip in4 in6 valid)
