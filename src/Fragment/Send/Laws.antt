-- ===== src/Fragment/Send/Laws.antt =====
-- `sendRecords` as a whole: the peer reads the ClientHello, in one record or in several.
use mathlib.Core.List.{flatten}
use enimul.Common.{
  ℕ, zero, suc, ◌+◌, ◌-◌, ◌/◌, ◌^◌, ◌≤◌, ◌<◌, true, false, ◌||◌, some, List, [], ◌∷◌, map, ◌≡◌,
  refl, ap, ◌⊎◌, inl, inr, arith, ◌==◌, if◌then◌else◌, Bytes, length, drop, slice, length-append,
  length-drop,
}
use enimul.Common.Int.{ℤ, pos, negsuc, ◌==ℤ◌}
use enimul.Wire.{M}
use enimul.Fragment.{split_parts}
use enimul.Fragment.Split.{
  All, read_records, read_records-make_record, parts-le-flatten, length-split_parts,
}
use enimul.Fragment.Send.{Options, send_records}
use enimul.Fragment.Send.Parts.{cut, cut_bounds, flatten-both_sides}
use enimul.Fragment.Send.Delivers.{
  Delivers, send_one_record-Delivers, Plan, by_record, in_segments, payloads_of, stream_of,
  send_many_records-Delivers, patched, patch-ok, length-patched,
}

-- `if segments == 0 { segments = 1 }`
abbrev normal : ℤ → ℤ
normal s = if s ==ℤ pos 0 then pos 1 else s

normal-pos : (n : ℕ) → (m : ℕ) × (0 < m) × (normal (pos n) ≡ pos m)
normal-pos zero = (1, omega arith, refl)
normal-pos (suc n) = (suc n, omega arith, let e : (suc n == 0) ≡ false = ground arith in rw e refl)

few : (n : ℕ) → n ≤ 1 → (n == 0 || n == 1) ≡ true
few n h = ground arith

many : (n : ℕ) → 1 < n → (n == 0 || n == 1) ≡ false
many n h = ground arith

-- With at most one record, no `oobex` and a number of segments that is not negative, `sendRecords`
-- succeeds on a connection whose operations all succeed, and the peer reads the ClientHello with
-- the minor version of the options, whether or not `oob` sends an urgent byte.
pub send_records-one_record :
    (o : Options) (hello : Bytes) (offset len n : ℕ)
    → o.records ≤ 1
    → o.oobex ≡ false
    → o.segments ≡ pos n
    → 3 ≤ length hello
    → offset + len ≤ length hello
    → Delivers (send_records o hello offset len) (patched o hello)
unfolding send_records normal-pos patched
send_records-one_record o hello offset len n h plain s long fits =
    let (m, positive, same) = normal-pos n in
    rw (patch-ok o hello long) (
      rw (few o.records h) (
        rw plain (
          rw s (
            rw same (
              send_one_record-Delivers o m (patched o hello) offset len positive
                (omega (arith, length-patched o hello long)))))))

-- The peer reads TLS records, each with the type and version of `hello`, whose payloads together
-- are the payload of `hello`: at least two of them, and at most `n`.
pub record Fragments (n : ℕ) (hello : Bytes) (m : M (Unit {0})) : Type 0 where
  pub stream : Bytes
  pub delivers : Delivers m stream
  pub payloads : List Bytes
  pub read :
      read_records (suc (length payloads)) stream ≡ some (map (λ p. (slice hello 0 3, p)) payloads)
  pub whole : flatten payloads ≡ drop 5 hello
  pub at_least : 2 ≤ length payloads
  pub at_most : length payloads ≤ n

three : (hello : Bytes) → 3 ≤ length hello → (t v m : ℕ) × (slice hello 0 3 ≡ t ∷ v ∷ m ∷ [])
three [] h = absurd (omega arith)
three (x ∷ []) h = absurd (omega arith)
three (x ∷ y ∷ []) h = absurd (omega arith)
three (x ∷ y ∷ z ∷ xs) h = (x, y, z, refl)

All-le-lt :
    (ps : List Bytes) (n : ℕ)
    → All (λ p. length p ≤ n) ps
    → n < 2 ^ 16
    → All (λ p. length p < 2 ^ 16) ps
All-le-lt [] n h small = tt
All-le-lt (p ∷ ps) n h small = (omega arith, All-le-lt ps n h.1 small)

fragments :
    (n : ℕ) (hello : Bytes) (offset len : ℕ) {m : M (Unit {0})}
    → 1 < n
    → 5 ≤ offset
    → offset + len ≤ length hello
    → length hello ≤ 5 + 65535
    → Delivers m (stream_of n hello offset len)
    → Fragments n hello m
unfolding payloads_of
fragments n hello offset len h far fits small d =
    let at = cut hello offset len in
    let (low, high) = cut_bounds hello offset len fits in
    let ps = payloads_of n hello offset len in
    let left = slice hello 5 at in
    let right = drop at hello in
    let (t, v, m, head) = three hello (omega arith) in
    let whole : flatten ps ≡ drop 5 hello =
      flatten-both_sides hello 5 at (n / 2) (n - n / 2) (omega arith) (omega arith) (omega arith) in
    let short =
      All-le-lt ps 65535
        (parts-le-flatten ps 65535 (omega (arith, ap length whole, length-drop 5 hello)))
        (omega arith) in
    let counted : length ps
        ≡ length (split_parts left (n / 2)) + length (split_parts right (n - n / 2)) =
      length-append (split_parts left (n / 2)) (split_parts right (n - n / 2)) in
    let on_left = length-split_parts left (n / 2) (omega arith) in
    let on_right = length-split_parts right (n - n / 2) (omega arith) in
    record {
      stream = stream_of n hello offset len;
      delivers = d;
      payloads = ps;
      read = rw head (read_records-make_record t v m ps short);
      whole = whole;
      at_least = ground arith;
      at_most = ground arith;
    }

-- With at least two records, no `oobex`, and a number of segments that is -1 or not negative,
-- `sendRecords` succeeds on a connection whose operations all succeed, and the peer reads the
-- ClientHello, of at most the 65535 bytes that a record holds, in fragments: TLS records with its
-- type and (patched) version, at least two and at most as many as asked for, whose payloads
-- together are the payload of the ClientHello. The server name stands behind the record's header.
pub send_records-Fragments :
    (o : Options) (hello : Bytes) (offset len : ℕ)
    → 1 < o.records
    → o.oobex ≡ false
    → (o.segments ≡ negsuc 0) ⊎ ((n : ℕ) × (o.segments ≡ pos n))
    → 5 ≤ offset
    → offset + len ≤ length hello
    → length hello ≤ 5 + 65535
    → Fragments o.records (patched o hello) (send_records o hello offset len)
unfolding send_records patched
send_records-Fragments o hello offset len h plain s far fits small =
    let same = length-patched o hello (omega arith) in
    let send = λ (segments : ℤ) (p : Plan segments).
      fragments o.records (patched o hello) offset len h far (omega arith) (omega arith)
        (send_many_records-Delivers o (patched o hello) offset len p plain h far (omega arith)) in
    rw (patch-ok o hello (omega arith)) (
      rw (many o.records h) (elim s [
        | inl e ↦ rw e (send (negsuc 0) by_record)
        | inr (n, e) ↦
            let (m, positive, norm) = normal-pos n in
            rw e (rw norm (send (pos m) (in_segments m positive)))
      ]))
