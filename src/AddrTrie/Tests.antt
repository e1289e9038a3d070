-- ===== src/AddrTrie/Tests.antt =====
-- Runs of the address tries.
use enimul.Common.{ℕ, Option, none, some, List, [], ◌∷◌, ◌≡◌, refl, if◌then◌else◌, Bytes, bytes_eq}
use enimul.Common.Result.{Result, ok, err}
use enimul.Netip.{Addr, v4, v6, as16, Prefix, Parsers}
use enimul.AddrTrie.BitTrie.{BitNode, get_bit32, get_bit128}
use enimul.AddrTrie.BitTrie.Entries.{path_from}
use enimul.AddrTrie.Ip.{insert_ipv4, insert_ipv6, new_trie, find_ipv4, find_ipv6}
use enimul.AddrTrie.Ip.Routes.{
  path_ipv4, path_ipv6, insert_all, longest_match, find_ipv4-longest_match, find_ipv6-longest_match,
}
use enimul.AddrTrie.Domain.{fresh, find}
use enimul.AddrTrie.Domain.Routes.{add_all, lookup_name, find-add_all}

-- "10.0.0.0/8", "10.1.0.0/16", "10.1.2.3", "2001:db8::/32" and "::1".
abbrev net8 : Bytes
net8 = b'1' ∷ b'0' ∷ b'.' ∷ b'0' ∷ b'.' ∷ b'0' ∷ b'.' ∷ b'0' ∷ b'/' ∷ b'8' ∷ []

abbrev net16 : Bytes
net16 = b'1' ∷ b'0' ∷ b'.' ∷ b'1' ∷ b'.' ∷ b'0' ∷ b'.' ∷ b'0' ∷ b'/' ∷ b'1' ∷ b'6' ∷ []

abbrev host : Bytes
host = b'1' ∷ b'0' ∷ b'.' ∷ b'1' ∷ b'.' ∷ b'2' ∷ b'.' ∷ b'3' ∷ []

abbrev net32 : Bytes
net32 =
    b'2' ∷ b'0' ∷ b'0' ∷ b'1' ∷ b':' ∷ b'd' ∷ b'b' ∷ b'8' ∷ b':' ∷ b':' ∷ b'/' ∷ b'3' ∷ b'2' ∷ []

abbrev loopback : Bytes
loopback = b':' ∷ b':' ∷ b'1' ∷ []

abbrev prefixes : Bytes → Option Prefix
prefixes s =
    if bytes_eq s net8
    then some (record { addr = v4 0x0a000000; bits = 8 })
    else if bytes_eq s net16
    then some (record { addr = v4 0x0a010000; bits = 16 })
    else if bytes_eq s net32
    then some (record { addr = v6 0x20010db800000000 0; bits = 32 })
    else none

abbrev addresses : Bytes → Option Addr
addresses s =
    if bytes_eq s host
    then some (v4 0x0a010203)
    else if bytes_eq s loopback
    then some (v6 0 1)
    else none

abbrev parsers : Parsers
parsers = record { parse_addr = addresses; parse_prefix = prefixes }

abbrev trie_or_fresh : Result (BitNode ℕ) → BitNode ℕ
trie_or_fresh (ok t) = t
trie_or_fresh (err e) = new_trie

abbrev routes4 : List (Bytes × ℕ)
routes4 = (net16, 2) ∷ (net8, 1) ∷ (host, 3) ∷ []

abbrev trie4 : BitNode ℕ
unfolding insert_ipv4
trie4 = trie_or_fresh (insert_all (insert_ipv4 parsers) routes4 new_trie)

abbrev routes6 : List (Bytes × ℕ)
routes6 = (net32, 4) ∷ (b'*' ∷ [], 5) ∷ (loopback, 6) ∷ []

abbrev trie6 : BitNode ℕ
unfolding insert_ipv6
trie6 = trie_or_fresh (insert_all (insert_ipv6 parsers) routes6 new_trie)

find_ipv4-longest_match_example :
    find_ipv4 trie4 (v4 0x0a01ff00)
    ≡ some (longest_match (path_ipv4 parsers) routes4 (path_from (get_bit32 0x0a01ff00) 0 32) 32)
unfolding insert_ipv4
find_ipv4-longest_match_example = find_ipv4-longest_match parsers routes4 trie4 0x0a01ff00 refl

find_ipv4_run : find_ipv4 trie4 (v4 0x0a01ff00) ≡ some (some 2)
unfolding find_ipv4 trie4
find_ipv4_run = refl

find_ipv6-longest_match_example :
    find_ipv6 trie6 (v6 0x20010db8000000ff 7)
    ≡ longest_match
        (path_ipv6 parsers)
        routes6
        (path_from (get_bit128 (as16 (v6 0x20010db8000000ff 7))) 0 128)
        128
unfolding insert_ipv6
find_ipv6-longest_match_example =
    find_ipv6-longest_match parsers routes6 trie6 (v6 0x20010db8000000ff 7) refl

-- "*.example.org", "*example.org", "a.example.org" and "*".
abbrev patterns : List (Bytes × ℕ)
patterns =
    (b'*' ∷ b'e' ∷ b'x' ∷ b'a' ∷ b'm' ∷ b'p' ∷ b'l' ∷ b'e' ∷ b'.' ∷ b'o' ∷ b'r' ∷ b'g' ∷ [], 1)
    ∷ (b'*' ∷ b'.' ∷ b'b' ∷ b'.' ∷ b'o' ∷ b'r' ∷ b'g' ∷ [], 2)
    ∷ (b'a' ∷ b'.' ∷ b'b' ∷ b'.' ∷ b'o' ∷ b'r' ∷ b'g' ∷ [], 3)
    ∷ (b'*' ∷ [], 4)
    ∷ []

abbrev query : Bytes
query = b'x' ∷ b'.' ∷ b'a' ∷ b'.' ∷ b'b' ∷ b'.' ∷ b'o' ∷ b'r' ∷ b'g' ∷ []

find-add_all_example : find (add_all patterns fresh) query ≡ lookup_name patterns query
find-add_all_example = find-add_all patterns query

find_run : find (add_all patterns fresh) query ≡ some 2
unfolding find add_all
find_run = refl
