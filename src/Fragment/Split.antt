-- ===== src/Fragment/Split.antt =====
-- The parts that `splitAndAppend` makes, and the records of `makeRecord` read back.
use mathlib.Core.List.{flatten, append-nil}
use enimul.Common.{
  ℕ, zero, suc, ◌+◌, ◌-◌, ◌*◌, ◌/◌, ◌%◌, ◌^◌, ◌≤◌, ◌<◌, true, false, ◌||◌, Option, none, some, List,
  [], ◌∷◌, ◌++◌, map, ◌≡◌, refl, sym, ap, ◌∙◌, inl, inr, arith, ltb, leb, ◌==◌, if◌then◌else◌,
  Bool-cases, Bytes, length, take, drop, slice, take-append-drop, length-append,
}
use enimul.Fragment.{make_record, split_loop, split_parts}

module _ {ℓ} {A : Type ℓ} where
  pub drop_cong : {m n : ℕ} (xs : List A) → m ≡ n → drop m xs ≡ drop n xs
  drop_cong xs e = ap (λ k. drop k xs) e

  drop-drop : (m n : ℕ) (xs : List A) → drop m (drop n xs) ≡ drop (n + m) xs
  drop-drop m zero xs = drop_cong xs (omega arith)
  drop-drop zero (suc n) [] = drop_cong {m = suc n} [] (omega arith)
  drop-drop (suc m) (suc n) [] = drop_cong {m = suc n} [] refl ∙ sym (drop_nil (suc n + suc m))
    where
      drop_nil : (k : ℕ) → drop {A = A} k [] ≡ []
      drop_nil zero = refl
      drop_nil (suc k) = refl
  drop-drop m (suc n) (x ∷ xs) =
      drop-drop m n xs ∙ drop_cong {m = suc (n + m)} (x ∷ xs) (omega arith)

  pub slice-append-drop :
      (xs : List A) (lo hi : ℕ) → lo ≤ hi → slice xs lo hi ++ drop hi xs ≡ drop lo xs
  slice-append-drop xs lo hi h =
      ap (λ l. slice xs lo hi ++ l)
        (drop_cong {m = hi} xs (omega arith) ∙ sym (drop-drop (hi - lo) lo xs))
      ∙ take-append-drop (hi - lo) (drop lo xs)

pub flatten-split_loop :
    (xs : Bytes) (base n i k : ℕ)
    → i + suc k ≡ n
    → flatten (split_loop xs base n i (suc k)) ≡ drop (i * base) xs
unfolding split_loop flatten
flatten-split_loop xs base n i zero h =
    let last : (i == n - 1) ≡ true = ground arith in rw last (append-nil (drop (i * base) xs))
flatten-split_loop xs base n i (suc k) h =
    let inner : (i == n - 1) ≡ false = ground arith in
    ap
      (λ b.
        (if b then drop (i * base) xs else slice xs (i * base) ((i + 1) * base))
        ++ flatten (split_loop xs base n (i + 1) (suc k)))
      inner
    ∙ ap (λ l. slice xs (i * base) ((i + 1) * base) ++ l)
        (flatten-split_loop xs base n (i + 1) k (omega arith))
    ∙ slice-append-drop xs (i * base) ((i + 1) * base) (omega arith)

-- Nothing is lost and nothing is moved: the parts put together again are the data.
pub flatten-split_parts : (xs : Bytes) (n : ℕ) → 0 < n → flatten (split_parts xs n) ≡ xs
unfolding split_parts flatten
flatten-split_parts xs (suc n) h = elim (Bool-cases (suc n == 1 || ltb (length xs) (suc n))) [
  | inl one ↦ rw one (append-nil xs)
  | inr more ↦ rw more (
      flatten-split_loop xs (length xs / suc n) (suc n) 0 n (omega arith)
      ∙ drop_cong {n = 0} xs (omega arith))
]
flatten-split_parts xs zero h = absurd (omega arith)

length-split_loop : (xs : Bytes) (base n i k : ℕ) → length (split_loop xs base n i k) ≡ k
unfolding split_loop
length-split_loop xs base n i zero = refl
length-split_loop xs base n i (suc k) = ap suc (length-split_loop xs base n (i + 1) k)

-- As many parts as asked for, where there are as many bytes, and one part else.
pub length-split_parts :
    (xs : Bytes) (n : ℕ) → 0 < n → length (split_parts xs n) ≡ (if ltb (length xs) n then 1 else n)
unfolding split_parts
length-split_parts xs n h = ground (arith, length-split_loop xs (length xs / n) n 0 n)

-- A TLS record stream read back: the three leading bytes of the header and the payload of each
-- record; none where the stream ends inside a record.
unfoldable pub read_records : ℕ → Bytes → Option (List (Bytes × Bytes))
read_records zero xs = none
read_records (suc fuel) [] = some []
read_records (suc fuel) (t ∷ v ∷ m ∷ hi ∷ lo ∷ body) =
    let size = hi * 256 + lo in
    let rest = read_records fuel (drop size body) in
    if leb size (length body)
    then elim rest [ none ↦ none | some rs ↦ some ((t ∷ v ∷ m ∷ [], take size body) ∷ rs) ]
    else none
read_records (suc fuel) _ = none

abbrev pub All {ℓ κ} : {A : Type ℓ} → (A → Type κ) → List A → Type κ
All P [] = Unit
All P (x ∷ xs) = P x × All P xs

take-length_append : (xs ys : Bytes) → take (length xs) (xs ++ ys) ≡ xs
take-length_append [] ys = refl
take-length_append (x ∷ xs) ys = ap (◌∷◌ x) (take-length_append xs ys)

drop-length_append : (xs ys : Bytes) → drop (length xs) (xs ++ ys) ≡ ys
drop-length_append [] ys = refl
drop-length_append (x ∷ xs) ys = drop-length_append xs ys

read_records-cons :
    (fuel : ℕ) (t v m : ℕ) (p rest : Bytes) {rs : List (Bytes × Bytes)}
    → length p < 2 ^ 16
    → read_records fuel rest ≡ some rs
    → read_records (suc fuel) (make_record (t ∷ v ∷ m ∷ []) p ++ rest)
      ≡ some ((t ∷ v ∷ m ∷ [], p) ∷ rs)
unfolding read_records make_record
read_records-cons fuel t v m p rest {rs} small e =
    let size : length p % 2 ^ 16 / 256 * 256 + length p % 2 ^ 16 % 256 ≡ length p = omega arith in
    let fits : leb (length p) (length (p ++ rest)) ≡ true = ground (arith, length-append p rest) in
    rw size (
      rw fits
        (rw (drop-length_append p rest) (rw e (rw size (rw (take-length_append p rest) refl)))))

-- The records of `makeRecord` are read back as the header and the parts that they were made of,
-- where every part is shorter than 2^16 bytes, so that its length fits into the two bytes for it.
pub read_records-make_record :
    (t v m : ℕ) (parts : List Bytes)
    → All (λ p. length p < 2 ^ 16) parts
    → read_records (suc (length parts)) (flatten (map (make_record (t ∷ v ∷ m ∷ [])) parts))
      ≡ some (map (λ p. (t ∷ v ∷ m ∷ [], p)) parts)
unfolding flatten
read_records-make_record t v m [] h = unfold read_records in refl
read_records-make_record t v m (p ∷ parts) h =
    read_records-cons (suc (length parts)) t v m p _ h.0 (read_records-make_record t v m parts h.1)

-- No part is longer than the whole.
pub parts-le-flatten :
    (parts : List Bytes) (n : ℕ) → length (flatten parts) ≤ n → All (λ p. length p ≤ n) parts
unfolding flatten
parts-le-flatten [] n h = tt
parts-le-flatten (p ∷ parts) n h =
    let sum = length-append p (flatten parts) in
    (omega arith, parts-le-flatten parts n (omega arith))
