-- ===== src/Pool/Listing.antt =====
-- internal/core/ippool.go: `parseIPList`.
pub mod Excludes
pub mod Bounds
use Prim.Native.String.{String}
use enimul.Common.{
  ℕ, zero, suc, ◌+◌, ◌-◌, ◌*◌, ◌^◌, Bool, true, false, not, ◌&&◌, ◌||◌, Option, none, some, List,
  [], ◌∷◌, ◌++◌, ◌==◌, leb, if◌then◌else◌, Bytes, length,
}
use enimul.Common.Result.{Error, msg, msg_with, op_error, external}
use enimul.Outcome.{Outcome, ok, failed, panic, ◌>>=◌, ◌>>◌, guard}
use enimul.Netip.{
  Addr, invalid, v4, v6, unmap, Prefix, Parsers, value6, next, is_valid, contains, addr_eq,
}
use enimul.Pattern.{expand_pattern}

-- The parsers of net/netip and `net.LookupIP`; `none` is an error.
pub record Env : Type 0 where
  pub parsers : Parsers
  pub lookup_ip : Bytes → Option (List Addr)

-- `maxIPPoolSize`
abbrev pub max_ip_pool_size : ℕ
max_ip_pool_size = 1000

-- `excludedSet` and `excludedPrefixes`
pub record Excluded : Type 0 where
  pub addrs : List Addr
  pub prefixes : List Prefix

-- The loops over the excluded items.
unfoldable pub exclude_one : Env → Bytes → Bytes → Excluded → Outcome Excluded
unfolding unmap
exclude_one env pattern s ex = elim (env.parsers.parse_addr s) [
  | some a ↦ ok (record ex { addrs = unmap a ∷ ex.addrs })
  | none ↦ elim (env.parsers.parse_prefix s) [
    | some p ↦ ok (record ex { prefixes = ex.prefixes ++ p ∷ [] })
    | none ↦ failed (msg_with "excluded item is invalid" pattern)
  ]
]

unfoldable pub exclude_each : Env → Bytes → List Bytes → Excluded → Outcome Excluded
unfolding exclude_one
exclude_each env pattern [] ex = ok ex
exclude_each env pattern (s ∷ ss) ex = do
  ex' ← exclude_one env pattern s ex
  exclude_each env pattern ss ex'

unfoldable pub exclude_all : Env → List Bytes → Excluded → Outcome Excluded
unfolding exclude_each expand_pattern
exclude_all env [] ex = ok ex
exclude_all env (pattern ∷ patterns) ex = do
  ss ← expand_pattern pattern
  ex' ← exclude_each env pattern ss ex
  exclude_all env patterns ex'

unfoldable pub any_addr : Addr → List Addr → Bool
any_addr a [] = false
any_addr a (b ∷ bs) = addr_eq a b || any_addr a bs

unfoldable pub any_prefix : Addr → List Prefix → Bool
unfolding contains
any_prefix a [] = false
any_prefix a (p ∷ ps) = contains p a || any_prefix a ps

-- `isExcluded`
unfoldable pub is_excluded : Excluded → Addr → Bool
unfolding any_addr any_prefix
is_excluded ex a = any_addr a ex.addrs || any_prefix a ex.prefixes

-- `append`, with the test of the size in front of it.
unfoldable pub append_checked : Excluded → String → Addr → List Addr → Outcome (List Addr)
unfolding is_excluded
append_checked ex what a ips =
    if is_excluded ex a
    then ok ips
    else if leb max_ip_pool_size (length ips)
    then failed (msg what)
    else ok (ips ++ a ∷ [])

-- The addresses from one on, to the end of its family.
unfoldable pub addresses_left : Addr → ℕ
addresses_left invalid = 0
addresses_left (v4 a) = 2 ^ 32 - a
addresses_left (v6 hi lo) = 2 ^ 128 - value6 hi lo

-- The loop over a network; no fuel would be a panic.
unfoldable pub cidr_loop : ℕ → Excluded → Prefix → Addr → List Addr → Outcome (List Addr)
unfolding contains append_checked next unmap
cidr_loop zero ex prefix addr ips = panic
cidr_loop (suc fuel) ex prefix addr ips =
    if contains prefix addr
    then (do
      ips' ← append_checked ex "cidr exceeds max pool size" (unmap addr) ips
      let rest = cidr_loop fuel ex prefix (next addr) ips'
      if not (is_valid (next addr)) || not (contains prefix (next addr)) then ok ips' else rest)
    else ok ips

-- The loop over what the resolver of the system answers.
unfoldable pub lookup_loop : Excluded → List Addr → List Addr → Outcome (List Addr)
unfolding append_checked unmap
lookup_loop ex [] ips = ok ips
lookup_loop ex (a ∷ as') ips =
    if is_valid a
    then (do
      ips' ← append_checked ex "dns resolution exceeds max pool size" (unmap a) ips
      lookup_loop ex as' ips')
    else lookup_loop ex as' ips

-- `err == nil && addr.IsValid()`
abbrev pub valid_or_none : Option Addr → Option Addr
valid_or_none none = none
valid_or_none (some a) = if is_valid a then some a else none

-- One item: an address, a network or a name.
unfoldable pub list_one : Env → Excluded → Bytes → List Addr → Outcome (List Addr)
unfolding is_excluded cidr_loop lookup_loop addresses_left unmap
list_one env ex s ips =
    guard (not (leb max_ip_pool_size (length ips)))
      (msg "ip pool exceeds maximum size during parsing")
    >> elim (valid_or_none (env.parsers.parse_addr s)) [
      | some a ↦ ok (if is_excluded ex (unmap a) then ips else ips ++ unmap a ∷ [])
      | none ↦ elim (env.parsers.parse_prefix s) [
        | some p ↦ cidr_loop (suc (addresses_left p.addr)) ex p p.addr ips
        | none ↦ elim (env.lookup_ip s) [
          | none ↦ failed (external 0)
          | some found ↦ lookup_loop ex found ips
        ]
      ]
    ]

unfoldable pub list_each : Env → Excluded → List Bytes → List Addr → Outcome (List Addr)
unfolding list_one
list_each env ex [] ips = ok ips
list_each env ex (s ∷ ss) ips = do ips' ← list_one env ex s ips; list_each env ex ss ips'

unfoldable pub list_all : Env → Excluded → List Bytes → List Addr → Outcome (List Addr)
unfolding list_each expand_pattern
list_all env ex [] ips = ok ips
list_all env ex (pattern ∷ patterns) ips = do
  ss ← expand_pattern pattern
  ips' ← list_each env ex ss ips
  list_all env ex patterns ips'

-- `parseIPList`
unfoldable pub parse_ip_list : Env → List Bytes → List Bytes → Outcome (List Addr)
unfolding exclude_all list_all
parse_ip_list env sources excluded = do
  ex ← exclude_all env excluded (record { addrs = []; prefixes = [] })
  list_all env ex sources []
