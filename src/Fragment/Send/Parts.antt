-- ===== src/Fragment/Send/Parts.antt =====
-- `findLastDotOrMidPos` and `splitAndAppend` on a well-placed server name: where the ClientHello is
-- cut, and that the parts on both sides hold it all.
use mathlib.Core.List.{flatten, append_assoc}
use enimul.Common.{
  ℕ, ◌+◌, ◌-◌, ◌≤◌, ◌<◌, true, false, ◌&&◌, Option, none, some, List, [], ◌∷◌, ◌++◌, map, ◌≡◌, refl,
  sym, ap, ◌∙◌, inl, inr, arith, leb, Option-cases, Bytes, length, drop, slice, length-take,
}
use enimul.Common.Int.{pos}
use enimul.Wire.{ok}
use enimul.Fragment.{
  last_index_byte, slice?, slice_from?, cut_of_name, find_last_dot_or_mid_pos, frame, split_parts,
  split_and_append,
}
use enimul.Fragment.Split.{flatten-split_parts, slice-append-drop}

pub flatten-append {ℓ} :
    {A : Type ℓ} (xs ys : List (List A)) → flatten (xs ++ ys) ≡ flatten xs ++ flatten ys
unfolding flatten
flatten-append [] ys = refl
flatten-append (x ∷ xs) ys =
    ap (λ l. x ++ l) (flatten-append xs ys) ∙ sym (append_assoc x (flatten xs) (flatten ys))

last_index_byte-lt : (b : ℕ) (xs : Bytes) {i : ℕ} → last_index_byte b xs ≡ some i → i < length xs
unfolding last_index_byte
last_index_byte-lt b [] e = cc
last_index_byte-lt b (x ∷ xs) {i} e = elim (Option-cases (last_index_byte b xs)) [
  | inl y ↦ ground arith
  | inr (j, y) ↦ ground (arith, last_index_byte-lt b xs y)
]

-- The cut stands within the name, or at its end.
pub cut_of_name-le : (name : Bytes) (len : ℕ) → length name ≤ len → cut_of_name name len ≤ len
unfolding cut_of_name
cut_of_name-le name len h = elim (Option-cases (last_index_byte b'.' name)) [
  | inl y ↦ rw (y, cut_of_name) (omega arith)
  | inr (i, y) ↦ rw (y, cut_of_name) (omega (arith, last_index_byte-lt b'.' name y))
]

-- Where a ClientHello with a server name is cut.
unfoldable pub cut : Bytes → ℕ → ℕ → ℕ
unfolding cut_of_name
cut hello offset len = offset + cut_of_name (slice hello offset (offset + len)) len

module _ (hello : Bytes) (offset len : ℕ) (fits : offset + len ≤ length hello) where
  pub find-cut : find_last_dot_or_mid_pos hello (pos offset) len ≡ ok (cut hello offset len)
  unfolding find_last_dot_or_mid_pos cut
  find-cut =
      let inside : (leb offset (offset + len) && leb (offset + len) (length hello)) ≡ true =
        ground arith in
      rw (inside, find_last_dot_or_mid_pos) refl

  -- The cut is not in front of the name, nor behind its end.
  pub cut_bounds : (offset ≤ cut hello offset len) × (cut hello offset len ≤ offset + len)
  unfolding cut
  cut_bounds =
      let name = slice hello offset (offset + len) in
      let le =
        cut_of_name-le name len
          (omega (arith, length-take (offset + len - offset) (drop offset hello))) in
      (omega arith, omega arith)

pub split_and_append-pos :
    (xs : Bytes) (header : Option Bytes) (n : ℕ) (result : List Bytes)
    → 0 < n
    → split_and_append xs header (pos n) result
      ≡ ok (result ++ map (frame header) (split_parts xs n))
unfolding split_and_append
split_and_append-pos xs header n result h =
    let positive : leb n 0 ≡ false = ground arith in rw positive refl

pub map-frame-none : (ps : List Bytes) → map (frame none) ps ≡ ps
map-frame-none [] = refl
map-frame-none (p ∷ ps) = ap (◌∷◌ p) (map-frame-none ps)

pub slice?_ok :
    (xs : Bytes) (lo hi : ℕ) → lo ≤ hi → hi ≤ length xs → slice? xs lo hi ≡ ok (slice xs lo hi)
slice?_ok xs lo hi a b =
    let inside : (leb lo hi && leb hi (length xs)) ≡ true = ground arith in rw inside refl

pub slice_from?_ok : (xs : Bytes) (lo : ℕ) → lo ≤ length xs → slice_from? xs lo ≡ ok (drop lo xs)
slice_from?_ok xs lo a = let inside : leb lo (length xs) ≡ true = ground arith in rw inside refl

-- The parts on both sides of a cut hold all bytes from `lo` on.
pub flatten-both_sides :
    (xs : Bytes) (lo at m n : ℕ)
    → lo ≤ at
    → 0 < m
    → 0 < n
    → flatten (split_parts (slice xs lo at) m ++ split_parts (drop at xs) n) ≡ drop lo xs
flatten-both_sides xs lo at m n h hm hn =
    flatten-append (split_parts (slice xs lo at) m) (split_parts (drop at xs) n)
    ∙ ap (λ l. l ++ flatten (split_parts (drop at xs) n))
        (flatten-split_parts (slice xs lo at) m hm)
    ∙ ap (λ l. slice xs lo at ++ l) (flatten-split_parts (drop at xs) n hn)
    ∙ slice-append-drop xs lo at h
