-- ===== src/AddrTrie/BitTrie.antt =====
-- internal/addrtrie/ipv4.go, ipv6.go: `bitNode` and the loops of `Insert` and `Find`, over the
-- function that gives the i-th bit of the address (`getBit32`, `getBit128`).
pub mod Entries
pub mod Longest
use enimul.Common.{
  ℕ, zero, suc, ◌+◌, ◌-◌, ◌/◌, ◌%◌, ◌^◌, Bool, true, false, Option, none, some, List, note, ◌==◌,
  ltb, if◌then◌else◌,
}
use enimul.Netip.{Uint128}

-- `nil` is the nil pointer. A node has `children[0]`, `children[1]`, and the value, which is
-- `none` where `valueExists` is false.
pub data BitNode {ℓ} (T : Type ℓ) : Type ℓ where
  nil : BitNode T
  node : BitNode T → BitNode T → Option T → BitNode T

-- `(v >> (31 - i)) & 1`
unfoldable pub get_bit32 : ℕ → ℕ → ℕ
get_bit32 v i = (v / 2 ^ (31 - i)) % 2

unfoldable pub get_bit128 : Uint128 → ℕ → ℕ
get_bit128 v i = if ltb i 64 then (v.hi / 2 ^ (63 - i)) % 2 else (v.lo / 2 ^ (63 - (i - 64))) % 2

module _ {ℓ} {T : Type ℓ} where
  -- `&bitNode[T]{}`
  abbrev pub fresh : BitNode T
  fresh = node nil nil none

  -- `if cur.children[b] == nil { cur.children[b] = &bitNode[T]{} }`
  abbrev pub alloc : BitNode T → BitNode T
  alloc nil = fresh
  alloc (node l r x) = node l r x

  -- `cur.value = value; cur.valueExists = true`
  abbrev pub set_value : T → BitNode T → BitNode T
  set_value v nil = nil
  set_value v (node l r x) = node l r (some v)

  -- The loop of `Insert`, `n` rounds from bit `i`.
  unfoldable pub insert_loop : (ℕ → ℕ) → ℕ → ℕ → T → BitNode T → BitNode T
  insert_loop bit zero i v cur = set_value v cur
  insert_loop bit (suc n) i v nil = nil
  insert_loop bit (suc n) i v (node l r x) = elim (bit i == 0) [
    | true ↦ node (insert_loop bit n (i + 1) v (alloc l)) r x
    | false ↦ node l (insert_loop bit n (i + 1) v (alloc r)) x
  ]

  abbrev pub value_of : BitNode T → Option T
  value_of nil = none
  value_of (node l r x) = x

  abbrev pub is_nil : BitNode T → Bool
  is_nil nil = true
  is_nil (node l r x) = false

  abbrev pub child : ℕ → BitNode T → BitNode T
  child b nil = nil
  child b (node l r x) = if b == 0 then l else r

  -- The loop of `Find`, `n` rounds from bit `i`: the node that it stops at, and `matched`.
  unfoldable pub find_loop : (ℕ → ℕ) → ℕ → ℕ → BitNode T → Option T → BitNode T × Option T
  find_loop bit zero i cur m = (cur, m)
  find_loop bit (suc n) i cur m =
      let noted = note (value_of cur) m in
      let next = child (bit i) cur in
      elim (is_nil next) [ true ↦ (cur, noted) | false ↦ find_loop bit n (i + 1) next noted ]

  -- What `Find` returns behind the loop: the last node's value, or the one matched on the way, or
  -- the root's.
  abbrev pub conclude : BitNode T → BitNode T × Option T → Option T
  conclude root (cur, m) = elim (value_of cur) [
    | some v ↦ some v
    | none ↦ elim m [ some v ↦ some v | none ↦ value_of root ]
  ]

  unfoldable pub find_from : (ℕ → ℕ) → ℕ → BitNode T → Option T
  unfolding find_loop
  find_from bit n root = conclude root (find_loop bit n 0 root none)
