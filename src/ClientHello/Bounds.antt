-- ===== src/ClientHello/Bounds.antt =====
-- `parseClientHello` reads within its data, and the name that it finds lies within it.
use enimul.Common.{
  ℕ, zero, suc, ◌+◌, ◌*◌, ◌≤◌, ◌<◌, true, [], ◌∷◌, ◌≡◌, refl, ◌⊎◌, inl, inr, arith, leb, ltb, ◌==◌,
  Bool-cases, Bytes, length,
}
use enimul.Common.Int.{pos, negsuc, ◌==ℤ◌}
use enimul.Common.Result.{Error}
use enimul.Outcome.{Outcome, ok, ◌>>◌, guard}
use enimul.Outcome.Ensures.{Ensures, returns, Ensures-bind, Ensures-guard}
use enimul.Fragment.{index?, slice?}
use enimul.ClientHello.{
  Found, nothing_found, be16, parse_header, skip_fields, parse_sni, parse_extension,
  extensions_loop, parse_extensions, parse_client_hello,
}

Ensures-index? :
    (xs : Bytes) (i : ℕ) → i < length xs → Ensures (λ b. index? xs i ≡ ok b) (index? xs i)
Ensures-index? [] i h = elim h [ ]
Ensures-index? (x ∷ xs) zero h = returns refl
Ensures-index? (x ∷ xs) (suc i) h = Ensures-index? xs i (omega arith)

Ensures-be16 :
    (xs : Bytes) (i : ℕ) → i + 1 < length xs → Ensures (λ v. be16 xs i ≡ ok v) (be16 xs i)
unfolding be16
Ensures-be16 xs i h = Ensures-bind (Ensures-index? xs i (omega arith)) (λ hi e.
    rw (e, be16)
      (Ensures-bind (Ensures-index? xs (i + 1) h) (λ lo e2. rw (e2, be16) (returns refl))))

Ensures-slice? :
    (xs : Bytes) (lo hi : ℕ) → lo ≤ hi → hi ≤ length xs → Ensures (λ _. Unit {0}) (slice? xs lo hi)
Ensures-slice? xs lo hi h k =
    let low : leb lo hi ≡ true = ground arith in
    let high : leb hi (length xs) ≡ true = ground arith in rw (low, high) (returns tt)

guard_le {ℓ} :
    {B : Type ℓ} {P : B → Type 0} (a b : ℕ) (e : Error) {rest : Outcome B}
    → (a ≤ b → Ensures P rest)
    → Ensures P (guard (leb a b) e >> rest)
guard_le a b e k = Ensures-guard (leb a b) e (λ t. k (ground arith))

guard_lt {ℓ} :
    {B : Type ℓ} {P : B → Type 0} (a b : ℕ) (e : Error) {rest : Outcome B}
    → (a < b → Ensures P rest)
    → Ensures P (guard (ltb a b) e >> rest)
guard_lt a b e k = Ensures-guard (ltb a b) e (λ t. k (ground arith))

parse_header-Ensures :
    (xs : Bytes) → 5 ≤ length xs → Ensures (λ _. 43 < length xs) (parse_header xs)
unfolding parse_header
parse_header-Ensures xs h = Ensures-bind (Ensures-index? xs 0 (omega arith)) (λ kind _.
    Ensures-guard (kind == 0x16) _ (λ _.
      Ensures-bind (Ensures-index? xs 1 (omega arith)) (λ major _.
        Ensures-guard (major == 0x3) _ (λ _. Ensures-bind (Ensures-be16 xs 3 (omega arith)) (λ n _.
          guard_le (5 + n) (length xs) _ (λ fits. guard_le 4 n _ (λ four.
            Ensures-bind (Ensures-index? xs 5 (omega arith)) (λ type _.
              Ensures-guard (type == 0x1) _ (λ _.
                Ensures-bind (Ensures-index? xs 6 (omega arith)) (λ a _.
                  Ensures-bind (Ensures-index? xs 7 (omega arith)) (λ b _.
                    Ensures-bind (Ensures-index? xs 8 (omega arith)) (λ c _.
                      let size = a * 65536 + b * 256 + c in
                      guard_le (size + 4) n _ (λ in_record. guard_le 35 size _ (λ long.
                        Ensures-bind (Ensures-slice? xs 9 11 (omega arith) (omega arith))
                          (λ version _.
                            guard_lt 43 (length xs) _ (λ behind. returns behind))))))))))))))))

skip_fields-Ensures :
    (xs : Bytes) → 43 < length xs → Ensures (λ at. (47 ≤ at) × (at ≤ length xs)) (skip_fields xs)
unfolding skip_fields
skip_fields-Ensures xs h = Ensures-bind (Ensures-index? xs 43 h) (λ sid_len _.
    let cs = 44 + sid_len in
    guard_le cs (length xs) _ (λ _. guard_le (cs + 2) (length xs) _ (λ two.
      Ensures-bind (Ensures-be16 xs cs (omega arith)) (λ cs_len _.
        let cm = cs + 2 + cs_len in
        guard_le cm (length xs) _ (λ _. guard_lt cm (length xs) _ (λ one.
          Ensures-bind (Ensures-index? xs cm one) (λ cm_len _.
            guard_le (cm + 1 + cm_len) (length xs) _ (λ fits. returns (omega arith, fits)))))))))

-- Where a name was found, it lies within the data, behind the fields in front of the extensions,
-- and the two bytes in front of it hold its length.
pub WellPlaced : Bytes → Found → Type 0
WellPlaced xs found =
    (found.sni_start ≡ negsuc 0)
    ⊎ ((s : ℕ) × (found.sni_start ≡ pos (s + 5))
        × (53 ≤ s)
        × (s + 5 + found.sni_len ≤ length xs)
        × (be16 xs (s + 3) ≡ ok found.sni_len))

parse_sni-Ensures :
    (xs : Bytes) (start size : ℕ) (found : Found)
    → 53 ≤ start
    → start + size ≤ length xs
    → Ensures (WellPlaced xs) (parse_sni xs start size found)
unfolding parse_sni WellPlaced
parse_sni-Ensures xs start size found h fits = Ensures-guard (found.sni_start ==ℤ negsuc 0) _ (λ _.
    guard_le 2 size _ (λ two. Ensures-bind (Ensures-be16 xs start (omega arith)) (λ list_len _.
      Ensures-guard (list_len + 2 == size) _ (λ _.
        guard_le (start + 2 + 3) (start + size) _ (λ three.
          Ensures-bind (Ensures-index? xs (start + 2) (omega arith)) (λ name_type _.
            Ensures-guard (name_type == 0) _ (λ _.
              Ensures-bind (Ensures-be16 xs (start + 3) (omega arith)) (λ name_len e.
                guard_le (start + 5 + name_len) (start + size) _
                  (λ inside. returns (inr (start, refl, h, omega arith, e)))))))))))

parse_extension-Ensures :
    (xs : Bytes) (type start size : ℕ) (found : Found)
    → 53 ≤ start
    → start + size ≤ length xs
    → WellPlaced xs found
    → Ensures (WellPlaced xs) (parse_extension xs type start size found)
unfolding parse_extension WellPlaced
parse_extension-Ensures xs type start size found h fits w = elim (Bool-cases (type == 0x002b)) [
  | inl a ↦ rw a (returns w)
  | inr a ↦ elim (Bool-cases (type == 0x00fe)) [
    | inl b ↦ rw (a, b) (returns w)
    | inr b ↦ elim (Bool-cases (type == 0x0000)) [
      | inl c ↦ rw (a, b, c) (parse_sni-Ensures xs start size found h fits)
      | inr c ↦ rw (a, b, c) (returns w)
    ]
  ]
]

extensions_loop-Ensures :
    (fuel : ℕ) (xs : Bytes) (end offset : ℕ) (found : Found)
    → 49 ≤ offset
    → end ≤ length xs
    → end < offset + fuel
    → offset ≤ end
    → WellPlaced xs found
    → Ensures (WellPlaced xs) (extensions_loop fuel xs end offset found)
unfolding extensions_loop
extensions_loop-Ensures zero xs end offset found far fits enough h w = absurd (omega arith)
extensions_loop-Ensures (suc fuel) xs end offset found far fits enough h w =
    elim (Bool-cases (leb (offset + 4) end)) [
      | inr e ↦ rw (e, extensions_loop) (returns w)
      | inl e ↦
          let room : offset + 4 ≤ end = ground arith in
          rw (e, extensions_loop)
            (Ensures-bind (Ensures-be16 xs offset (omega arith)) (λ type _.
              Ensures-bind (Ensures-be16 xs (offset + 2) (omega arith)) (λ size _.
                guard_le (offset + 4 + size) end _ (λ inside.
                  Ensures-bind
                    (parse_extension-Ensures xs type (offset + 4) size found (omega arith)
                      (omega arith) w)
                    (λ found2 w2.
                      extensions_loop-Ensures fuel xs end (offset + 4 + size) found2 (omega arith)
                        fits (omega arith) inside w2)))))
    ]

parse_extensions-Ensures :
    (xs : Bytes) (offset : ℕ) → 47 ≤ offset → Ensures (WellPlaced xs) (parse_extensions xs offset)
unfolding parse_extensions WellPlaced
parse_extensions-Ensures xs offset far = elim (Bool-cases (leb (offset + 2) (length xs))) [
  | inr e ↦ rw e (returns (inl refl))
  | inl e ↦
      let room : offset + 2 ≤ length xs = ground arith in
      rw e (
        Ensures-bind (Ensures-be16 xs offset (omega arith)) (λ total _.
          guard_le (offset + 2 + total) (length xs) _ (λ fits.
            extensions_loop-Ensures (suc (length xs)) xs (offset + 2 + total) (offset + 2)
              nothing_found (omega arith) fits (omega arith) (omega arith) (inl refl))))
]

-- On data of at least 5 bytes, the length of a record's header, `parseClientHello` never panics
-- and its loop over the extensions ends. Where it succeeds, either it found no name, or the name
-- that it found lies within the data, at least 58 bytes from its start, and the two bytes in front
-- of the name hold its length.
pub parse_client_hello-WellPlaced :
    (xs : Bytes)
    → 5 ≤ length xs
    → Ensures (λ hello. WellPlaced xs hello.found) (parse_client_hello xs)
unfolding parse_client_hello
parse_client_hello-WellPlaced xs h = Ensures-bind (parse_header-Ensures xs h) (λ version long.
    Ensures-bind (skip_fields-Ensures xs long) (λ offset (far, _).
      Ensures-bind (parse_extensions-Ensures xs offset far) (λ found w. returns w)))
