-- ===== src/Pool/Choice.antt =====
-- internal/core/ippool.go: `Get` and the manager of the pools.
pub mod Picks
pub mod Turns
use Prim.Native.String.{String}
use enimul.Common.{
  ℕ, zero, suc, ◌+◌, ◌-◌, ◌*◌, ◌/◌, ◌%◌, ◌^◌, Bool, true, false, not, ◌&&◌, ◌||◌, Option, none,
  some, List, [], ◌∷◌, ◌++◌, map, ◌==◌, leb, ltb, if◌then◌else◌, Bytes, bytes_eq, length, get_elem?,
  take,
}
use enimul.Common.Result.{Error, msg_with}
use enimul.Outcome.{Outcome, ok, failed, panic, ◌>>=◌, ◌>>◌}
use enimul.Netip.{Addr}
use enimul.Dst.{Dst, new_single_dst, new_dst_from_addrs}
use enimul.Pool.Creation.{IpPool}

-- `p.ips[i]`
abbrev pub ip_at : List Addr → ℕ → Outcome Addr
ip_at ips i = elim (get_elem? ips i) [ some a ↦ ok a | none ↦ panic ]

unfoldable pub ips_at : List Addr → List ℕ → Outcome (List Addr)
ips_at ips [] = ok []
ips_at ips (i ∷ is) = do a ← ip_at ips i; as' ← ips_at ips is; ok (a ∷ as')

-- The loop over the weights: the index whose turn it is, or none behind the last one.
unfoldable pub pick : List ℕ → List ℕ → ℕ → ℕ → Option ℕ
pick (w ∷ ws) (i ∷ is) acc target =
    let rest = pick ws is (acc + w) target in if ltb target (acc + w) then some i else rest
pick _ _ acc target = none

abbrev pub dst_of_turn : (Addr → Bytes) → IpPool → Option ℕ → Outcome Dst
dst_of_turn to_string p none = ok p.fallback_ip
dst_of_turn to_string p (some i) = ip_at p.ips i >>= λ a. ok (new_single_dst (to_string a))

-- `Get`, and the pool with its counter moved on. The modulus 0 panics; `int(current)` is the 32-bit
-- counter itself, as it is where an `int` has 64 bits.
unfoldable pub get_turn : (Addr → Bytes) → IpPool → Outcome (Dst × IpPool)
unfolding ips_at pick new_single_dst new_dst_from_addrs
get_turn to_string p =
    if p.cur_valid_ips == 0
    then ok (p.fallback_ip, p)
    else if p.multi
    then (ips_at p.ips (take p.cur_valid_ips p.best_indexes) >>= λ addrs.
        ok (new_dst_from_addrs addrs, p))
    else if p.total_weight == 0
    then panic
    else (do
      let target = p.counter % p.total_weight
      dst ← dst_of_turn to_string p (
          pick (take p.cur_valid_ips p.best_weights) (take p.cur_valid_ips p.best_indexes) 0 target)
      ok (dst, record p { counter = (p.counter + 1) % 2 ^ 32 }))

-- The pools by their tags; `ipPoolManager.get`.
unfoldable pub find_pool : List (Bytes × IpPool) → Bytes → Outcome IpPool
unfolding bytes_eq
find_pool [] tag = failed (msg_with "ip pool does not exist" tag)
find_pool ((t, p) ∷ pools) tag =
    let rest = find_pool pools tag in if bytes_eq t tag then ok p else rest

unfoldable pub put_pool : Bytes → IpPool → List (Bytes × IpPool) → List (Bytes × IpPool)
unfolding bytes_eq
put_pool tag p [] = []
put_pool tag p ((t, q) ∷ pools) =
    let rest = put_pool tag p pools in if bytes_eq t tag then (t, p) ∷ pools else (t, q) ∷ rest

-- `getDstFrom`, with the pools as it leaves them.
unfoldable pub get_dst_from :
    (Addr → Bytes) → List (Bytes × IpPool) → Bytes → Outcome (Dst × List (Bytes × IpPool))
unfolding find_pool get_turn put_pool
get_dst_from to_string pools tag = do
  p ← find_pool pools tag
  turn ← get_turn to_string p
  ok (turn.0, put_pool tag turn.1 pools)
