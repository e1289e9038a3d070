-- ===== src/Netip.antt =====
-- What the source uses of Go's net/netip. An IPv4 address is its 32-bit value and an IPv6 address
-- the two 64-bit halves of its value, both in network order; zones are left out.
use enimul.Common.{
  ℕ, ◌+◌, ◌*◌, ◌/◌, ◌%◌, ◌^◌, Bool, true, false, ◌&&◌, Option, none, some, leb, ◌==◌, ◌-◌,
  if◌then◌else◌, Bytes,
}

-- `invalid` is the zero `netip.Addr`.
pub data Addr : Type 0 where
  invalid : Addr
  v4 : ℕ → Addr
  v6 : ℕ → ℕ → Addr

unfoldable pub is4 : Addr → Bool
is4 (v4 a) = true
is4 _ = false

unfoldable pub is6 : Addr → Bool
is6 (v6 hi lo) = true
is6 _ = false

-- `Is4In6`
unfoldable pub is_4in6 : ℕ → ℕ → Bool
is_4in6 hi lo = hi == 0 && lo / 2 ^ 32 == 0xffff

unfoldable pub unmap : Addr → Addr
unfolding is_4in6
unmap (v6 hi lo) = if is_4in6 hi lo then v4 (lo % 2 ^ 32) else v6 hi lo
unmap invalid = invalid
unmap (v4 a) = v4 a

-- `As4`; `none` is its panic.
unfoldable pub as4 : Addr → Option ℕ
unfolding is_4in6
as4 (v4 a) = some a
as4 (v6 hi lo) = if is_4in6 hi lo then some (lo % 2 ^ 32) else none
as4 invalid = none

pub record Uint128 : Type 0 where
  pub hi : ℕ
  pub lo : ℕ

-- `As16`; an IPv4 address is mapped into ::ffff:0:0/96.
unfoldable pub as16 : Addr → Uint128
as16 (v6 hi lo) = record { hi = hi; lo = lo }
as16 (v4 a) = record { hi = 0; lo = 0xffff * 2 ^ 32 + a }
as16 invalid = record { hi = 0; lo = 0 }

-- `netip.Prefix`: an address with the length of its mask.
pub record Prefix : Type 0 where
  pub addr : Addr
  pub bits : ℕ

-- `netip.ParseAddr` and `netip.ParsePrefix`; `none` is an error.
pub record Parsers : Type 0 where
  pub parse_addr : Bytes → Option Addr
  pub parse_prefix : Bytes → Option Prefix

-- The number that the bits of an IPv6 address stand for.
abbrev pub value6 : ℕ → ℕ → ℕ
value6 hi lo = hi * 2 ^ 64 + lo

-- `Addr.Next`: the invalid address behind the last one of a family.
unfoldable pub next : Addr → Addr
next invalid = invalid
next (v4 a) = if leb (2 ^ 32) (a + 1) then invalid else v4 (a + 1)
next (v6 hi lo) =
    if leb (2 ^ 128) (value6 hi lo + 1)
    then invalid
    else v6 ((value6 hi lo + 1) / 2 ^ 64) ((value6 hi lo + 1) % 2 ^ 64)

-- `Addr.IsValid`
abbrev pub is_valid : Addr → Bool
is_valid invalid = false
is_valid _ = true

abbrev contains_addr : Addr → ℕ → Addr → Bool
contains_addr (v4 p) bits (v4 a) = a / 2 ^ (32 - bits) == p / 2 ^ (32 - bits)
contains_addr (v6 hi lo) bits (v6 hi' lo') =
    value6 hi' lo' / 2 ^ (128 - bits) == value6 hi lo / 2 ^ (128 - bits)
contains_addr _ bits _ = false

-- `Prefix.Contains`: the families and the first bits agree.
unfoldable pub contains : Prefix → Addr → Bool
contains p ip = contains_addr p.addr p.bits ip

-- `==` on addresses.
abbrev pub addr_eq : Addr → Addr → Bool
addr_eq invalid invalid = true
addr_eq (v4 a) (v4 b) = a == b
addr_eq (v6 hi lo) (v6 hi' lo') = hi == hi' && lo == lo'
addr_eq _ _ = false
