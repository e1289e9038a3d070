-- ===== src/Routing/Tables.antt =====
-- `getIPPolicy` over the tables that the configuration fills.
use mathlib.Core.Logic.{◌≢◌}
use enimul.Common.{◌%◌, ◌^◌, Option, none, some, List, ◌≡◌, refl, ap, inl, inr, Bool-cases, Bytes}
use enimul.Common.Result.{Result}
use enimul.Outcome.{Outcome, panic}
use enimul.Netip.{Addr, invalid, v4, v6, is6, is_4in6, unmap, as4, as16, Parsers}
use enimul.AddrTrie.BitTrie.{get_bit32, get_bit128}
use enimul.AddrTrie.BitTrie.Entries.{path_from}
use enimul.AddrTrie.Ip.{insert_ipv4, insert_ipv6, new_trie, find_ipv4, find_ipv6}
use enimul.AddrTrie.Ip.Routes.{
  path_ipv4, path_ipv6, insert_all, longest_match, find_ipv4-longest_match, find_ipv6-longest_match,
}
use enimul.Policy.{Policy}
use enimul.Routing.{RouteMatcher, get_ip_policy}

-- The longest match in the table of the address's family; an IPv4 address that is mapped into IPv6
-- belongs to IPv4.
unfoldable pub route :
    Parsers → List (Bytes × Policy) → List (Bytes × Policy) → Addr → Option Policy
unfolding unmap longest_match get_bit32 get_bit128
route np es4 es6 ip = elim (unmap ip) [
  | invalid ↦ none
  | v4 a ↦ longest_match (path_ipv4 np) es4 (path_from (get_bit32 a) 0 32) 32
  | v6 hi lo ↦ longest_match (path_ipv6 np) es6 (path_from (get_bit128 (as16 ip)) 0 128) 128
]

abbrev found_or_panic : Option (Option Policy) → Outcome (Option Policy)
found_or_panic o = elim o [ some found ↦ Outcome.ok found | none ↦ panic ]

-- Where each table was filled by insertions that all succeed, `getIPPolicy` answers for every valid
-- address the policy of the longest match in the table of its family, and does not panic.
pub get_ip_policy-route :
    (np : Parsers) (es4 es6 : List (Bytes × Policy)) (m : RouteMatcher) (ip : Addr)
    → insert_all (insert_ipv4 np) es4 new_trie ≡ Result.ok m.ipv4_policies
    → insert_all (insert_ipv6 np) es6 new_trie ≡ Result.ok m.ipv6_policies
    → ip ≢ invalid
    → get_ip_policy m ip ≡ Outcome.ok (route np es4 es6 ip)
unfolding get_ip_policy route is6 unmap find_ipv4 find_ipv6 as4
get_ip_policy-route np es4 es6 m invalid e4 e6 valid = absurd (valid refl)
get_ip_policy-route np es4 es6 m (v4 a) e4 e6 valid =
    ap found_or_panic (find_ipv4-longest_match np es4 m.ipv4_policies a e4)
get_ip_policy-route np es4 es6 m (v6 hi lo) e4 e6 valid = elim (Bool-cases (is_4in6 hi lo)) [
  | inl y ↦
      rw (y, get_ip_policy, route, unmap, is6, as4)
        (ap found_or_panic (find_ipv4-longest_match np es4 m.ipv4_policies (lo % 2 ^ 32) e4))
  | inr y ↦
      rw (y, get_ip_policy, route, unmap, is6)
        (ap Outcome.ok (find_ipv6-longest_match np es6 m.ipv6_policies (v6 hi lo) e6))
]
