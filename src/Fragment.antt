-- ===== src/Fragment.antt =====
-- internal/core/fragment.go: splitting a ClientHello into TLS records and TCP segments.
pub mod Split
pub mod Chunks
pub mod Send
mod Tests
use Prim.Native.String.{String}
use mathlib.Core.List.{flatten}
use enimul.Common.{
  ℕ, zero, suc, ◌+◌, ◌-◌, ◌*◌, ◌/◌, ◌%◌, ◌^◌, Bool, true, false, not, ◌&&◌, ◌||◌, Option, none,
  some, List, [], ◌∷◌, ◌++◌, map, ltb, leb, ◌==◌, if◌then◌else◌, Bytes, length, get_elem?, take,
  drop, slice,
}
use enimul.Common.Int.{ℤ, pos, negsuc, ◌==ℤ◌, leb_ℤ, sub_ℕ}
use enimul.Wire.{
  Conn, Outcome, ok, failed, panic, M, ◌>>=◌, ◌>>◌, pure, lift, write, send_with_oob, wait_for_ack,
}

-- `bytes.LastIndexByte`; -1 is `none`.
unfoldable pub last_index_byte : ℕ → Bytes → Option ℕ
last_index_byte b [] = none
last_index_byte b (c ∷ cs) = elim (last_index_byte b cs) [
  | some i ↦ some (i + 1)
  | none ↦ if c == b then some 0 else none
]

-- `xs[lo:hi]`, which panics out of range.
abbrev pub slice? : Bytes → ℕ → ℕ → Outcome Bytes
slice? xs lo hi = if leb lo hi && leb hi (length xs) then ok (slice xs lo hi) else panic

-- `xs[lo:]`
abbrev pub slice_from? : Bytes → ℕ → Outcome Bytes
slice_from? xs lo = if leb lo (length xs) then ok (drop lo xs) else panic

-- `xs[i]`
abbrev pub index? : Bytes → ℕ → Outcome ℕ
index? xs i = elim (get_elem? xs i) [ some b ↦ ok b | none ↦ panic ]

-- `findLastDotOrMidPos` on the bytes of the name: where to cut, from its start.
unfoldable pub cut_of_name : Bytes → ℕ → ℕ
unfolding last_index_byte
cut_of_name name len = elim (last_index_byte b'.' name) [ some i ↦ i | none ↦ len / 2 ]

-- `findLastDotOrMidPos`; `sniStart` may have become negative, which panics.
unfoldable pub find_last_dot_or_mid_pos : Bytes → ℤ → ℕ → Outcome ℕ
unfolding cut_of_name
find_last_dot_or_mid_pos xs (negsuc n) len = panic
find_last_dot_or_mid_pos xs (pos start) len = elim (slice? xs start (start + len)) [
  | ok name ↦ ok (start + cut_of_name name len)
  | failed e ↦ failed e
  | panic ↦ panic
]

-- `makeRecord`
unfoldable pub make_record : Bytes → Bytes → Bytes
make_record header payload =
    let size = length payload % 2 ^ 16 in
    take 3 (header ++ 0 ∷ 0 ∷ 0 ∷ []) ++ (size / 256 ∷ size % 256 ∷ payload)

-- What is appended for one part; `header` is nil or not.
abbrev pub frame : Option Bytes → Bytes → Bytes
frame none part = part
frame (some header) part = make_record header part

-- The loop of `splitAndAppend`: `k` rounds from round `i` of `n`.
unfoldable pub split_loop : Bytes → ℕ → ℕ → ℕ → ℕ → List Bytes
split_loop xs base n i zero = []
split_loop xs base n i (suc k) =
    (if i == n - 1 then drop (i * base) xs else slice xs (i * base) ((i + 1) * base))
    ∷ split_loop xs base n (i + 1) k

-- The parts that `splitAndAppend` makes for a positive `n`.
unfoldable pub split_parts : Bytes → ℕ → List Bytes
unfolding split_loop
split_parts xs n =
    if n == 1 || ltb (length xs) n then xs ∷ [] else split_loop xs (length xs / n) n 0 n

-- `splitAndAppend`
unfoldable pub split_and_append : Bytes → Option Bytes → ℤ → List Bytes → Outcome (List Bytes)
unfolding split_parts make_record
split_and_append xs header n result =
    if leb_ℤ n (pos 0)
    then panic
    else elim n [ pos m ↦ ok (result ++ map (frame header) (split_parts xs m)) | negsuc m ↦ panic ]
