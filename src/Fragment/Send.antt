-- ===== src/Fragment/Send.antt =====
-- internal/core/fragment.go: `sendRecords`.
pub mod Streams
pub mod Parts
pub mod Delivers
pub mod Laws
use mathlib.Core.List.{flatten}
use enimul.Common.{
  ℕ, zero, suc, ◌+◌, ◌-◌, ◌*◌, ◌/◌, Bool, true, false, ◌&&◌, ◌||◌, Option, none, some, List, [],
  ◌∷◌, ltb, leb, ◌==◌, if◌then◌else◌, Bytes, length,
}
use enimul.Common.Int.{ℤ, pos, negsuc, ◌==ℤ◌, leb_ℤ, sub_ℕ}
use enimul.Jsonx.{JsonByte, byte_is_zero}
use enimul.Wire.{
  Outcome, ok, failed, panic, M, ◌>>=◌, ◌>>◌, pure, lift, write, write_bare, send_with_oob, perform,
  wait_for_ack,
}
use enimul.Fragment.{slice?, slice_from?, index?}
use enimul.Fragment.Chunks.{make_packets, make_chunks}

-- What `sendRecords` is told beside the ClientHello; a number of records that is negative is not
-- modelled.
pub record Options : Type 0 where
  pub records : ℕ
  pub segments : ℤ
  pub minor_version : JsonByte
  pub oob : Bool
  pub oobex : Bool
  pub wait : Bool

-- `clientHello[2] = minorVersion.Byte()`
abbrev pub set_minor : ℕ → Bytes → Outcome Bytes
set_minor b (x ∷ y ∷ z ∷ rest) = ok (x ∷ y ∷ b ∷ rest)
set_minor b _ = panic

-- The head of the data with two urgent bytes, and what is left behind its 35 bytes.
unfoldable pub send_oobex : Bool → Bytes → M Bytes
unfolding perform wait_for_ack
send_oobex wait xs = do
  head ← lift (slice? xs 0 15)
  b ← lift (index? xs 15)
  send_with_oob "oob 1" head b
  second ← lift (slice? xs 16 35)
  send_with_oob "oob 2" second 0
  wait_for_ack wait
  lift (slice_from? xs 35)

-- The loop over the packets; the first one is sent with an urgent byte where `oob` is set. The
-- number of a packet in an error's text is left out.
unfoldable pub send_packets : Bool → Bool → List Bytes → M (Unit {0})
unfolding perform wait_for_ack
send_packets wait oob [] = pure tt
send_packets wait oob (p ∷ ps) = do
  if oob then send_with_oob "oob" p 0 else write "write packet" p
  wait_for_ack wait
  send_packets wait false ps

-- One round of the loop over the chunks, `segments == -1`.
unfoldable pub send_chunk : Bool → Bool → ℕ → Bytes → M (Unit {0})
unfolding perform
send_chunk oob oobex i chunk =
    if i == 0
    then (if oob
        then send_with_oob "oob" chunk 0
        else if oobex
        then (do
          head ← lift (if length chunk == 0 then panic else slice? chunk 0 (length chunk - 1))
          b ← lift (index? chunk (length chunk - 1))
          send_with_oob "oob 1" head b)
        else write "write record 1" chunk)
    else if i == 1 && oobex
    then send_with_oob "oob 2" chunk 0
    else write "write record" chunk

unfoldable pub send_chunks : Bool → Bool → Bool → ℕ → List Bytes → M (Unit {0})
unfolding send_chunk wait_for_ack
send_chunks wait oob oobex i [] = pure tt
send_chunks wait oob oobex i (chunk ∷ chunks) = do
  send_chunk oob oobex i chunk
  wait_for_ack wait
  send_chunks wait oob oobex (i + 1) chunks

-- The loop over `n` segments of `base` bytes, `k` rounds from round `i`.
unfoldable pub send_segments : Bool → Bool → Bytes → ℕ → ℕ → ℕ → ℕ → M (Unit {0})
unfolding perform wait_for_ack
send_segments wait oob xs base n i zero = pure tt
send_segments wait oob xs base n i (suc k) = do
  segment ← lift (slice? xs (i * base) (if i == n - 1 then length xs else i * base + base))
  if i == 0 && oob then send_with_oob "oob" segment 0 else write "write segment" segment
  wait_for_ack wait
  send_segments wait oob xs base n (i + 1) k

-- The branch `records == 1` behind `oobex`.
unfoldable pub send_one_record : Options → ℤ → Bytes → ℤ → ℕ → M (Unit {0})
unfolding perform send_packets make_packets
send_one_record o segments hello offset len =
    if segments ==ℤ pos 1 then write "send remaining data" hello else (do
      packets ← lift (make_packets segments hello offset len)
      send_packets o.wait o.oob packets)

-- The segments of the merged records; for a negative `segments` the loop has no round.
unfoldable pub send_merged : Options → ℤ → Bytes → M (Unit {0})
unfolding perform send_segments
send_merged o (pos n) merged =
    if n == 1 || leb (length merged) n
    then write_bare merged
    else send_segments o.wait o.oob merged (length merged / n) n 0 n
send_merged o (negsuc n) merged = pure tt

-- The branch `records != 1`.
unfoldable pub send_many_records : Options → ℤ → Bytes → ℤ → ℕ → M (Unit {0})
unfolding make_chunks send_chunks send_merged send_oobex
send_many_records o segments hello offset len = do
  chunks ← lift (make_chunks o.records hello offset len)
  if segments ==ℤ negsuc 0
      then send_chunks o.wait o.oob o.oobex 0 chunks
      else ((if o.oobex then send_oobex o.wait (flatten chunks) else pure (flatten chunks))
          >>= send_merged o segments)

-- `sendRecords`: `offset` and `len` are where the server name stands.
unfoldable pub send_records : Options → Bytes → ℕ → ℕ → M (Unit {0})
unfolding byte_is_zero send_oobex send_one_record send_many_records
send_records o hello offset len = do
  patched ←
      lift (if byte_is_zero o.minor_version then ok hello else set_minor o.minor_version.byte hello)
  let segments = if o.segments ==ℤ pos 0 then pos 1 else o.segments
  if o.records == 0 || o.records == 1
      then (if o.oobex
          then (do
            rest ← send_oobex o.wait patched
            send_one_record o segments rest (sub_ℕ offset 35) len)
          else send_one_record o segments patched (pos offset) len)
      else send_many_records o segments patched (pos offset) len
