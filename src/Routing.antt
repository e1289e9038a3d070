-- ===== src/Routing.antt =====
-- internal/core/policy.go: the tables of the router and the redirection of an address.
pub mod Tables
pub mod Redirection
pub mod Evaluator
mod Tests
use Prim.Native.String.{String}
use enimul.Common.{
  ℕ, zero, suc, ◌+◌, ◌-◌, ◌*◌, ◌/◌, ◌%◌, ◌^◌, Bool, true, false, not, Option, none, some, List, [],
  ◌∷◌, ◌++◌, ◌==◌, leb, if◌then◌else◌, Bytes, bytes_eq, take, drop, contains_byte, has_prefix,
}
use enimul.Common.Result.{Error, msg, op_error, external, Result}
use enimul.Outcome.{Outcome, ok, failed, panic, ◌>>=◌, ◌>>◌, guard}
use enimul.Netip.{Addr, invalid, v4, v6, is4, is6, unmap, as4, as16, Uint128, Prefix, Parsers}
use enimul.AddrTrie.BitTrie.{BitNode}
use enimul.AddrTrie.Ip.{find_ipv4, find_ipv6}
use enimul.AddrTrie.Domain.{LabelNode, find}
use enimul.Dst.{Dst, new_single_dst, is_multi, get_single, is_zero}
use enimul.Policy.{Policy}

-- What this part uses of net/netip: `String` and `Prefix.Masked().Addr()` beside the parsers.
pub record Net : Type 0 where
  pub parsers : Parsers
  pub to_string : Addr → Bytes
  pub masked : Prefix → Addr

-- `routeMatcher`
pub record RouteMatcher : Type 0 where
  pub default_policy : Policy
  pub domain_policies : LabelNode Policy
  pub ipv4_policies : BitNode Policy
  pub ipv6_policies : BitNode Policy
  pub hosts : LabelNode Dst

-- `getIPPolicy`
unfoldable pub get_ip_policy : RouteMatcher → Addr → Outcome (Option Policy)
unfolding is6 unmap find_ipv4 find_ipv6
get_ip_policy m ip =
    if is6 (unmap ip)
    then ok (find_ipv6 m.ipv6_policies ip)
    else elim (find_ipv4 m.ipv4_policies ip) [ some found ↦ ok found | none ↦ panic ]

-- `getDomainPolicy`
unfoldable pub get_domain_policy : RouteMatcher → Bytes → Option Policy
unfolding find
get_domain_policy m domain = find m.domain_policies domain

-- `getHosts`
unfoldable pub get_hosts : RouteMatcher → Bytes → Option Dst
unfolding find
get_hosts m domain = find m.hosts domain

-- The `n` bytes of a number in network order, and the number of bytes in that order.
unfoldable pub be_bytes : ℕ → ℕ → Bytes
be_bytes zero v = []
be_bytes (suc n) v = v / 256 ^ n % 256 ∷ be_bytes n v

unfoldable pub of_bytes : ℕ → Bytes → ℕ
of_bytes acc [] = acc
of_bytes acc (b ∷ bs) = of_bytes (acc * 256 + b) bs

-- One round of the loops of `transformIP`. The mask has the upper `bits - i * 8` bits of a byte set,
-- so the network's byte is rounded down to them and the rest is the address's.
unfoldable pub transform_byte : ℕ → ℕ → ℕ → ℕ → ℕ
transform_byte bits i net ip =
    if leb (i * 8 + 8) bits
    then net
    else if leb bits (i * 8)
    then ip
    else let low = 2 ^ (8 - (bits - i * 8)) in net / low * low + ip % low

unfoldable pub transform_bytes : ℕ → ℕ → Bytes → Bytes → Bytes
unfolding transform_byte
transform_bytes bits i (n ∷ ns) (b ∷ bs) =
    transform_byte bits i n b ∷ transform_bytes bits (i + 1) ns bs
transform_bytes bits i _ _ = []

-- `As4`, which panics.
abbrev pub as4_or_panic : Addr → Outcome ℕ
as4_or_panic a = elim (as4 a) [ some v ↦ ok v | none ↦ panic ]

-- The 16 bytes of an address.
abbrev pub bytes16 : Addr → Bytes
bytes16 a = be_bytes 8 (as16 a).hi ++ be_bytes 8 (as16 a).lo

-- `AddrFrom16`
abbrev pub from16 : Bytes → Addr
from16 bs = v6 (of_bytes 0 (take 8 bs)) (of_bytes 0 (drop 8 bs))

unfoldable pub transform_addr : ℕ → Addr → Addr → Outcome Addr
unfolding is4 as4 as16 be_bytes of_bytes transform_bytes
transform_addr bits ip network =
    if is4 ip
    then (do
      a ← as4_or_panic ip
      n ← as4_or_panic network
      ok (v4 (of_bytes 0 (transform_bytes bits 0 (be_bytes 4 n) (be_bytes 4 a)))))
    else ok (from16 (transform_bytes bits 0 (bytes16 network) (bytes16 ip)))

-- `==` on Booleans.
abbrev pub same : Bool → Bool → Bool
same true b = b
same false b = not b

-- `transformIP`
unfoldable pub transform_ip : Net → Addr → Bytes → Outcome Bytes
unfolding is4 transform_addr
transform_ip net ip target = elim (net.parsers.parse_prefix target) [
  | none ↦ failed (op_error "invalid target network" (external 0))
  | some prefix ↦
      guard (same (is4 ip) (is4 prefix.addr))
        (msg "IP version mismatch between source IP and target network")
      >> (transform_addr prefix.bits ip (net.masked prefix) >>= λ a. ok (net.to_string a))
]

abbrev pub pool_tag : Bytes
pool_tag = b'$' ∷ []

-- `stripNoRedirectPrefix`
unfoldable pub strip_no_redirect_prefix : Bytes → Bytes × Bool
unfolding has_prefix
strip_no_redirect_prefix s = if has_prefix s (b'^' ∷ []) then (drop 1 s, true) else (s, false)

-- `preMapIP`: the destination, and whether it is the tag of a pool. What `transformIP` returns is
-- not used, as in the source.
unfoldable pub pre_map_ip : Net → Addr → Dst → Outcome (Dst × Bool)
unfolding is_zero is_multi get_single new_single_dst has_prefix contains_byte transform_ip
pre_map_ip net ip map_to =
    if is_zero map_to
    then ok (new_single_dst (net.to_string ip), false)
    else if is_multi map_to
    then ok (map_to, false)
    else (do
      single ← get_single map_to
      if has_prefix single pool_tag
          then ok (map_to, true)
          else if contains_byte b'/' single
          then (transform_ip net ip single >>= λ transformed. ok (map_to, false))
          else ok (map_to, false))

-- The part of `ipRedirect` behind the look-up; `get_dst_from` is the method of the pools' manager.
unfoldable pub redirect_to : Net → (Bytes → Outcome Dst) → Bytes → Addr → Dst → Outcome Dst
unfolding is_zero is_multi get_single new_single_dst has_prefix contains_byte transform_ip bytes_eq
redirect_to net get_dst_from host ip map_to =
    if is_zero map_to then ok (new_single_dst host) else if is_multi map_to then ok map_to else (do
      single ← get_single map_to
      if bytes_eq single []
          then ok (new_single_dst host)
          else if has_prefix single pool_tag
          then get_dst_from (drop 1 single)
          else if contains_byte b'/' single
          then (transform_ip net ip single >>= λ transformed. ok (new_single_dst transformed))
          else ok (new_single_dst single))

-- `ipRedirect`, without its log.
unfoldable pub ip_redirect :
    Net → (Bytes → Outcome Dst) → RouteMatcher → Bytes → Outcome (Dst × Option Policy)
unfolding get_ip_policy redirect_to new_single_dst
ip_redirect net get_dst_from m host = elim (net.parsers.parse_addr host) [
  | none ↦ ok (new_single_dst host, none)
  | some ip ↦ get_ip_policy m ip >>= λ found. elim found [
    | none ↦ ok (new_single_dst host, none)
    | some policy ↦
        redirect_to net get_dst_from host ip policy.map_to >>= λ dst. ok (dst, some policy)
  ]
]
