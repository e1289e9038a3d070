-- ===== src/Fragment/Send/Delivers.antt =====
-- What the peer of `sendRecords` reads, on a connection whose operations all succeed.
use mathlib.Core.List.{flatten, append-nil}
use enimul.Common.{
  ℕ, zero, suc, ◌+◌, ◌-◌, ◌/◌, ◌≤◌, ◌<◌, Bool, true, false, ◌&&◌, ◌||◌, none, some, List, [], ◌∷◌,
  ◌++◌, map, ◌≡◌, refl, ap, ◌∙◌, inl, inr, arith, leb, ◌==◌, if◌then◌else◌, Bool-cases, Bytes,
  length, length-append, length-take, length-drop, take, drop, slice,
}
use enimul.Common.Int.{ℤ, pos, negsuc}
use enimul.Jsonx.{byte_is_zero}
use enimul.Wire.{Event, wrote, ok, M, perform}
use enimul.Common.Result.{Error, op_error}
use enimul.Wire.Sends.{Sends, Sends-perform, delivered}
use enimul.Fragment.{make_record, frame, split_loop, split_parts}
use enimul.Fragment.Chunks.{make_packets, make_chunks}
use enimul.Fragment.Split.{flatten-split_loop, drop_cong}
use enimul.Fragment.Send.{Options, set_minor, send_one_record, send_merged, send_many_records}
use enimul.Fragment.Send.Streams.{
  packet_events, Sends-send_packets, delivered-packet_events, Sends-send_chunks,
  Sends-send_segments,
}
use enimul.Fragment.Send.Parts.{
  cut, find-cut, cut_bounds, split_and_append-pos, map-frame-none, slice?_ok, slice_from?_ok,
  flatten-both_sides,
}

-- The action succeeds, and the peer reads the bytes `stream`.
pub record Delivers (m : M (Unit {0})) (stream : Bytes) : Type 0 where
  pub events : List Event
  pub sends : Sends m events
  pub reads : delivered events ≡ stream

Delivers-packets :
    {m : M (Unit {0})} {stream : Bytes} (oob : Bool) (ps : List Bytes)
    → Sends m (packet_events oob ps)
    → flatten ps ≡ stream
    → Delivers m stream
Delivers-packets oob ps s e = record {
  events = packet_events oob ps;
  sends = s;
  reads = delivered-packet_events oob ps ∙ e;
}

Delivers-write : (wrap : Error → Error) (bs : Bytes) → Delivers (perform wrap (wrote bs)) bs
unfolding delivered
Delivers-write wrap bs = record {
  events = wrote bs ∷ [];
  sends = Sends-perform wrap (wrote bs);
  reads = append-nil bs;
}

packets_of : ℕ → Bytes → ℕ → ℕ → List Bytes
packets_of n hello offset len =
    let at = cut hello offset len in
    split_parts (slice hello 0 at) (n / 2) ++ split_parts (drop at hello) (n - n / 2)

make_packets-ok :
    (n : ℕ) (hello : Bytes) (offset len : ℕ)
    → 1 < n
    → offset + len ≤ length hello
    → make_packets (pos n) hello (pos offset) len ≡ ok (packets_of n hello offset len)
unfolding make_packets packets_of
make_packets-ok n hello offset len h fits =
    let at = cut hello offset len in
    let (low, high) = cut_bounds hello offset len fits in
    let left = split_parts (slice hello 0 at) (n / 2) in
    let right = split_parts (drop at hello) (n - n / 2) in
    let positive : leb 0 n ≡ true = ground arith in
    rw positive (
      rw (find-cut hello offset len fits) (
        rw (slice?_ok hello 0 at (omega arith) (omega arith)) (
          rw (split_and_append-pos (slice hello 0 at) none (n / 2) [] (omega arith)) (
            rw (slice_from?_ok hello at (omega arith)) (
              rw (split_and_append-pos (drop at hello) none (n - n / 2) _ (omega arith)) (
                ap (λ l. ok (l ++ map (frame none) right)) (map-frame-none left)
                ∙ ap (λ r. ok (left ++ r)) (map-frame-none right)))))))

-- The branch of one record: the peer reads the data as it is.
pub send_one_record-Delivers :
    (o : Options) (n : ℕ) (hello : Bytes) (offset len : ℕ)
    → 0 < n
    → offset + len ≤ length hello
    → Delivers (send_one_record o (pos n) hello (pos offset) len) hello
unfolding send_one_record packets_of
send_one_record-Delivers o n hello offset len h fits = elim (Bool-cases (n == 1)) [
  | inl one ↦ rw one (Delivers-write (op_error "send remaining data") hello)
  | inr more ↦
      let at = cut hello offset len in
      let (low, high) = cut_bounds hello offset len fits in
      let many : 1 < n = ground arith in
      rw more (
        rw (make_packets-ok n hello offset len many fits) (
          Delivers-packets o.oob (packets_of n hello offset len)
            (Sends-send_packets o.wait o.oob (packets_of n hello offset len))
            (flatten-both_sides hello 0 at (n / 2) (n - n / 2) (omega arith) (omega arith)
              (omega arith))))
]

-- The payloads of the records of the other branch.
unfoldable pub payloads_of : ℕ → Bytes → ℕ → ℕ → List Bytes
unfolding split_parts cut
payloads_of n hello offset len =
    let at = cut hello offset len in
    split_parts (slice hello 5 at) (n / 2) ++ split_parts (drop at hello) (n - n / 2)

map-append_lem : (f : Bytes → Bytes) (xs ys : List Bytes) → map f xs ++ map f ys ≡ map f (xs ++ ys)
map-append_lem f [] ys = refl
map-append_lem f (x ∷ xs) ys = ap (◌∷◌ (f x)) (map-append_lem f xs ys)

pub make_chunks-ok :
    (n : ℕ) (hello : Bytes) (offset len : ℕ)
    → 1 < n
    → 5 ≤ offset
    → offset + len ≤ length hello
    → make_chunks n hello (pos offset) len
      ≡ ok (map (make_record (slice hello 0 3)) (payloads_of n hello offset len))
unfolding make_chunks payloads_of
make_chunks-ok n hello offset len h far fits =
    let at = cut hello offset len in
    let (low, high) = cut_bounds hello offset len fits in
    let header = slice hello 0 3 in
    rw (find-cut hello offset len fits) (
      rw (slice?_ok hello 0 3 (omega arith) (omega arith)) (
        rw (slice?_ok hello 5 at (omega arith) (omega arith)) (
          rw (split_and_append-pos (slice hello 5 at) (some header) (n / 2) [] (omega arith)) (
            rw (slice_from?_ok hello at (omega arith)) (
              rw (split_and_append-pos (drop at hello) (some header) (n - n / 2) _ (omega arith))
                (ap ok (map-append_lem (make_record header) _ _)))))))

send_merged-Delivers :
    (o : Options) (n : ℕ) (merged : Bytes) → 0 < n → Delivers (send_merged o (pos n) merged) merged
unfolding send_merged
send_merged-Delivers o (suc n) merged h =
    elim (Bool-cases (suc n == 1 || leb (length merged) (suc n))) [
      | inl one ↦ rw one (Delivers-write (λ e. e) merged)
      | inr more ↦
          let base = length merged / suc n in
          rw more (
            Delivers-packets o.oob (split_loop merged base (suc n) 0 (suc n))
              (Sends-send_segments o.wait o.oob merged base (suc n) 0 (suc n) (omega arith)
                (grind arith))
              (flatten-split_loop merged base (suc n) 0 n (omega arith)
                ∙ drop_cong {n = 0} merged (omega arith)))
    ]
send_merged-Delivers o zero merged h = absurd (omega arith)

-- The records one behind the other.
abbrev pub stream_of : ℕ → Bytes → ℕ → ℕ → Bytes
stream_of n hello offset len =
    flatten (map (make_record (slice hello 0 3)) (payloads_of n hello offset len))

-- The two ways of the other branch without `oobex`: record by record, and in `n` segments.
pub data Plan : ℤ → Type 0 where
  by_record : Plan (negsuc 0)
  in_segments : (n : ℕ) → 0 < n → Plan (pos n)

-- The branch of many records without `oobex`: the peer reads the records one behind the other.
pub send_many_records-Delivers :
    {segments : ℤ} (o : Options) (hello : Bytes) (offset len : ℕ)
    → Plan segments
    → o.oobex ≡ false
    → 1 < o.records
    → 5 ≤ offset
    → offset + len ≤ length hello
    → Delivers
        (send_many_records o segments hello (pos offset) len)
        (stream_of o.records hello offset len)
unfolding send_many_records
send_many_records-Delivers o hello offset len by_record plain many far fits =
    rw (make_chunks-ok o.records hello offset len many far fits) (
      rw plain (
        Delivers-packets (o.oob && true) _
          (Sends-send_chunks o.wait o.oob 0
            (map (make_record (slice hello 0 3)) (payloads_of o.records hello offset len)))
          refl))
send_many_records-Delivers o hello offset len (in_segments n h) plain many far fits =
    rw (make_chunks-ok o.records hello offset len many far fits)
      (rw plain (send_merged-Delivers o n (stream_of o.records hello offset len) h))

-- The ClientHello with the minor version of the options.
unfoldable pub patched : Options → Bytes → Bytes
patched o hello =
    if byte_is_zero o.minor_version
    then hello
    else take 2 hello ++ o.minor_version.byte ∷ drop 3 hello

pub patch-ok :
    (o : Options) (hello : Bytes)
    → 3 ≤ length hello
    → (if byte_is_zero o.minor_version then ok hello else set_minor o.minor_version.byte hello)
      ≡ ok (patched o hello)
unfolding patched
patch-ok o hello h = elim (Bool-cases (byte_is_zero o.minor_version)) [
  | inl y ↦ rw y refl
  | inr y ↦ rw y (set hello h)
]
  where
    set :
        (xs : Bytes)
        → 3 ≤ length xs
        → set_minor o.minor_version.byte xs ≡ ok (take 2 xs ++ o.minor_version.byte ∷ drop 3 xs)
    set [] h = absurd (omega arith)
    set (x ∷ []) h = absurd (omega arith)
    set (x ∷ y ∷ []) h = absurd (omega arith)
    set (x ∷ y ∷ z ∷ xs) h = refl

pub length-patched :
    (o : Options) (hello : Bytes) → 3 ≤ length hello → length (patched o hello) ≡ length hello
unfolding patched
length-patched o hello h = elim (Bool-cases (byte_is_zero o.minor_version)) [
  | inl y ↦ rw (y, patched) refl
  | inr y ↦
      rw (y, patched)
        (omega (
          arith,
          length-append (take 2 hello) (o.minor_version.byte ∷ drop 3 hello),
          length-take 2 hello,
          length-drop 3 hello,
        ))
]
