-- ===== src/AddrTrie/Ip.antt =====
-- internal/addrtrie/ipv4.go, ipv6.go: the parsers of a pattern, `Insert` and `Find`. The parsers of
-- net/netip are the parameter `np`.
pub mod Routes
use Prim.Native.String.{String}
use enimul.Common.{
  ℕ, ◌+◌, ◌*◌, ◌^◌, Bool, true, false, ◌||◌, Option, none, some, List, [], ◌∷◌, ltb, not,
  if◌then◌else◌, Bytes, bytes_eq,
}
use enimul.Common.Result.{Error, msg, Result, ok, err, ◌>>=◌}
use enimul.Netip.{Addr, is4, unmap, as4, as16, Uint128, Prefix, Parsers}
use enimul.AddrTrie.BitTrie.{
  BitNode, fresh, set_value, insert_loop, find_from, get_bit32, get_bit128,
}

abbrev star : Bytes
star = b'*' ∷ []

-- `As4` where `Is4` has been tested, and 0 where it would panic.
abbrev as4_or_zero : Addr → ℕ
as4_or_zero a = elim (as4 a) [ some v ↦ v | none ↦ 0 ]

module _ (np : Parsers) where
  prefix_ipv4 : Prefix → Result (ℕ × ℕ)
  unfolding is4 as4
  prefix_ipv4 p =
      if not (is4 p.addr)
      then err (msg "non-IPv4 mask")
      else if ltb 32 p.bits
      then err (msg "non-canonical mask")
      else ok (as4_or_zero p.addr, p.bits)

  addr_ipv4 : Addr → Result (ℕ × ℕ)
  unfolding is4 as4
  addr_ipv4 a = if not (is4 a) then err (msg "invalid IPv4 address") else ok (as4_or_zero a, 32)

  -- `parseIPv4OrCIDR`: the address and the length of its mask.
  pub parse_ipv4_or_cidr : Bytes → Result (ℕ × ℕ)
  unfolding prefix_ipv4 addr_ipv4 unmap
  parse_ipv4_or_cidr s = elim (np.parse_prefix s) [
    | some p ↦ prefix_ipv4 p
    | none ↦ elim (np.parse_addr s) [
      | some a ↦ addr_ipv4 (unmap a)
      | none ↦ err (msg "invalid IPv4 address or CIDR")
    ]
  ]

  prefix_ipv6 : Addr → ℕ → Result (Uint128 × ℕ)
  unfolding is4 as16
  prefix_ipv6 a bits =
      if is4 a
      then err (msg "non-IPv6 mask")
      else if ltb 128 bits
      then err (msg "non-canonical mask")
      else ok (as16 a, bits)

  addr_ipv6 : Addr → Result (Uint128 × ℕ)
  unfolding is4 as16
  addr_ipv6 a = if is4 a then err (msg "invalid IPv6 address") else ok (as16 a, 128)

  -- `parseIPv6OrCIDR`
  pub parse_ipv6_or_cidr : Bytes → Result (Uint128 × ℕ)
  unfolding prefix_ipv6 addr_ipv6 unmap
  parse_ipv6_or_cidr s = elim (np.parse_prefix s) [
    | some p ↦ prefix_ipv6 (unmap p.addr) p.bits
    | none ↦ elim (np.parse_addr s) [
      | some a ↦ addr_ipv6 (unmap a)
      | none ↦ err (msg "invalid IPv6 address or CIDR")
    ]
  ]

  module _ {ℓ} {T : Type ℓ} where
    -- `IPv4Trie.Insert`. An error leaves the trie as it was.
    unfoldable pub insert_ipv4 : BitNode T → Bytes → T → Result (BitNode T)
    unfolding parse_ipv4_or_cidr bytes_eq insert_loop get_bit32
    insert_ipv4 root prefix v =
        if bytes_eq prefix star
        then ok (set_value v root)
        else (parse_ipv4_or_cidr prefix >>= λ r. ok (insert_loop (get_bit32 r.0) r.1 0 v root))

    -- `IPv6Trie.Insert`
    unfoldable pub insert_ipv6 : BitNode T → Bytes → T → Result (BitNode T)
    unfolding parse_ipv6_or_cidr bytes_eq insert_loop get_bit128
    insert_ipv6 root prefix v =
        if bytes_eq prefix star
        then ok (set_value v root)
        else (parse_ipv6_or_cidr prefix >>= λ r. ok (insert_loop (get_bit128 r.0) r.1 0 v root))

module _ {ℓ} {T : Type ℓ} where
  -- `NewIPv4Trie` and `NewIPv6Trie`
  abbrev pub new_trie : BitNode T
  new_trie = fresh

  -- `IPv4Trie.Find`; the outer `none` is the panic of `As4`.
  unfoldable pub find_ipv4 : BitNode T → Addr → Option (Option T)
  unfolding find_from get_bit32 as4
  find_ipv4 root addr = elim (as4 addr) [
    | some a ↦ some (find_from (get_bit32 a) 32 root)
    | none ↦ none
  ]

  -- `IPv6Trie.Find`
  unfoldable pub find_ipv6 : BitNode T → Addr → Option T
  unfolding find_from get_bit128 as16
  find_ipv6 root addr = find_from (get_bit128 (as16 addr)) 128 root
