-- ===== src/Fragment/Send/Streams.antt =====
-- The loops of `sendRecords` on a connection whose operations succeed: what the peer reads.
use Prim.Native.String.{String}
use mathlib.Core.List.{flatten}
use enimul.Common.{
  ℕ, zero, suc, ◌+◌, ◌-◌, ◌*◌, ◌≤◌, Bool, true, false, ◌&&◌, List, [], ◌∷◌, ◌++◌, ◌≡◌, refl, ap,
  ◌∙◌, inl, inr, arith, leb, ◌==◌, if◌then◌else◌, Bool-cases, Bytes, length, take, drop, slice,
  length-drop,
}
use enimul.Common.Result.{op_error}
use enimul.Wire.{Event, wrote, urgent, waited, ok, perform}
use enimul.Wire.Sends.{
  Sends, Sends-perform, Sends-wait_for_ack, Sends-pure, Sends-then, has_urgent, delivered,
}
use enimul.Fragment.{slice?, split_loop}
use enimul.Fragment.Send.{send_packets, send_chunk, send_chunks, send_segments}

-- A packet sent plainly, or with an urgent byte 0 behind it.
abbrev pub packet : Bool → Bytes → Event
packet oob p = if oob then urgent p 0 else wrote p

abbrev pub packet_events : Bool → List Bytes → List Event
packet_events oob [] = []
packet_events oob (p ∷ ps) = packet oob p ∷ waited ∷ packet_events false ps

pub Sends-packet :
    (oob : Bool) (op : String) (p : Bytes)
    → Sends
        (if oob then perform (op_error "oob") (urgent p 0) else perform (op_error op) (wrote p))
        (packet oob p ∷ [])
Sends-packet true op p = Sends-perform (op_error "oob") (urgent p 0)
Sends-packet false op p = Sends-perform (op_error op) (wrote p)

pub Sends-send_packets :
    (wait oob : Bool) (ps : List Bytes) → Sends (send_packets wait oob ps) (packet_events oob ps)
unfolding send_packets
Sends-send_packets wait oob [] = Sends-pure
Sends-send_packets wait oob (p ∷ ps) =
    Sends-then (Sends-packet oob "write packet" p)
      (Sends-then (Sends-wait_for_ack wait) (Sends-send_packets wait false ps))

no_urgent : (ps : List Bytes) → has_urgent (packet_events false ps) ≡ false
no_urgent [] = refl
no_urgent (p ∷ ps) = no_urgent ps

-- The urgent byte behind the first packet is the only one, so it is not in the stream.
pub delivered-packet_events :
    (oob : Bool) (ps : List Bytes) → delivered (packet_events oob ps) ≡ flatten ps
unfolding delivered flatten
delivered-packet_events oob [] = refl
delivered-packet_events false (p ∷ ps) = ap (λ l. p ++ l) (delivered-packet_events false ps)
delivered-packet_events true (p ∷ ps) =
    ap
      (λ b.
        p
        ++ (if b
            then 0 ∷ delivered (packet_events false ps)
            else delivered (packet_events false ps)))
      (no_urgent ps)
    ∙ ap (λ l. p ++ l) (delivered-packet_events false ps)

and_false : (b : Bool) → (b && false) ≡ false
and_false true = refl
and_false false = refl

Sends-send_chunk :
    (oob : Bool) (i : ℕ) (p : Bytes)
    → Sends (send_chunk oob false i p) (packet (oob && (i == 0)) p ∷ [])
unfolding send_chunk
Sends-send_chunk oob i p = elim (Bool-cases (i == 0)) [
  | inl first ↦
      rw first
        (elim oob
          as (λ b.
            Sends
              (if b
                then perform (op_error "oob") (urgent p 0)
                else perform (op_error "write record 1") (wrote p))
              (packet (b && true) p ∷ [])) [
                | true ↦ Sends-perform (op_error "oob") (urgent p 0)
                | false ↦ Sends-perform (op_error "write record 1") (wrote p)
              ])
  | inr next ↦
      rw (next, and_false oob, and_false (i == 1))
        (Sends-perform (op_error "write record") (wrote p))
]

later : (oob : Bool) (i : ℕ) → (oob && (i + 1 == 0)) ≡ false
later oob i = ground arith

later' : (oob : Bool) (i : ℕ) → ((i + 1 == 0) && oob) ≡ false
later' oob i = ground arith

-- With no `oobex` the loop over the chunks sends them as packets.
pub Sends-send_chunks :
    (wait oob : Bool) (i : ℕ) (ps : List Bytes)
    → Sends (send_chunks wait oob false i ps) (packet_events (oob && (i == 0)) ps)
unfolding send_chunks
Sends-send_chunks wait oob i [] = Sends-pure
Sends-send_chunks wait oob i (p ∷ ps) = Sends-then (Sends-send_chunk oob i p) (
    Sends-then (Sends-wait_for_ack wait)
      (rw (later oob i) at (Sends-send_chunks wait oob (i + 1) ps)))

take_all {ℓ} : {A : Type ℓ} (xs : List A) (n : ℕ) → length xs ≤ n → take n xs ≡ xs
take_all [] zero h = refl
take_all [] (suc n) h = refl
take_all (x ∷ xs) zero h = absurd (omega arith)
take_all (x ∷ xs) (suc n) h = ap (◌∷◌ x) (take_all xs n (omega arith))

-- The bounds of segment `i` of `n` are in range, and it is the part that a split makes.
segment :
    (xs : Bytes) (base n i k : ℕ)
    → i + suc k ≡ n
    → n * base ≤ length xs
    → slice? xs (i * base) (if i == n - 1 then length xs else i * base + base)
      ≡ ok (if i == n - 1 then drop (i * base) xs else slice xs (i * base) ((i + 1) * base))
segment xs base n i k h fits = elim (Bool-cases (i == n - 1)) [
  | inl last ↦
      let low : i * base ≤ length xs = grind arith in
      let inside : (leb (i * base) (length xs) && leb (length xs) (length xs)) ≡ true =
        ground arith in
      rw last (
        rw inside (
          ap ok (
            take_all (drop (i * base) xs) (length xs - i * base)
              (omega (arith, length-drop (i * base) xs)))))
  | inr inner ↦
      let up : (i + 1) * base ≤ n * base = grind arith in
      let same : i * base + base ≡ (i + 1) * base = omega arith in
      let inside : (leb (i * base) ((i + 1) * base) && leb ((i + 1) * base) (length xs)) ≡ true =
        ground arith in
      rw inner (rw same (rw inside refl))
]

pub Sends-send_segments :
    (wait oob : Bool) (xs : Bytes) (base n i k : ℕ)
    → i + k ≡ n
    → n * base ≤ length xs
    → Sends
        (send_segments wait oob xs base n i k)
        (packet_events ((i == 0) && oob) (split_loop xs base n i k))
unfolding send_segments split_loop
Sends-send_segments wait oob xs base n i zero h fits = Sends-pure
Sends-send_segments wait oob xs base n i (suc k) h fits = rw (segment xs base n i k h fits) (
    Sends-then (Sends-packet ((i == 0) && oob) "write segment" _) (
      Sends-then (Sends-wait_for_ack wait) (
        rw (later' oob i) at
          (Sends-send_segments wait oob xs base n (i + 1) k (omega arith) fits))))
