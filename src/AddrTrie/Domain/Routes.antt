-- ===== src/AddrTrie/Domain/Routes.antt =====
-- The domain matcher as a table: what `Find` answers after any run of `Add`.
use mathlib.Core.Path.{fun_ext}
use mathlib.Core.List.{reverse, reverse-cons}
use enimul.Common.{
  ℕ, suc, ◌+◌, Bool, true, false, ◌&&◌, Option, none, some, List, [], ◌∷◌, ◌++◌, ◌≡◌, refl, ap, ◌∙◌,
  subst, inl, inr, arith, ◌==◌, if◌then◌else◌, Bool-cases, Bytes, bytes_eq, drop, note, best,
  note-none, note_written, contains_byte, has_prefix,
}
use enimul.Common.Result.{ok, err}
use enimul.AddrTrie.Domain.{
  LabelNode, fresh, insert_pattern, label_from, labels, add, exact_value, wildcard_value,
  find_labels, find,
}
use enimul.AddrTrie.Domain.Entries.{
  labels_eq, names, Dotted, none_left, first_label, dotted, value_at, Reads, exact, wildcard,
  value_at-fresh, value_at-set_values, value_at-insert_labels, exact-find_labels,
  wildcard-find_labels,
}

-- The dots of a name.
abbrev pub dots : Bytes → ℕ
dots [] = 0
dots (c ∷ cs) = let rest = dots cs in if c == b'.' then suc rest else rest

dots-append : (xs ys : Bytes) → dots (xs ++ ys) ≡ dots xs + dots ys
dots-append [] ys = omega arith
dots-append (x ∷ xs) ys = ground (arith, dots-append xs ys)

dots-reverse : (xs : Bytes) → dots (reverse xs) ≡ dots xs
dots-reverse [] = refl
dots-reverse (x ∷ xs) =
    ap dots (reverse-cons x xs)
    ∙ dots-append (reverse xs) (x ∷ [])
    ∙ ground (arith, dots-reverse xs)

label_from-Dotted : (label cs : Bytes) → Dotted (label_from label cs) (dots cs)
unfolding label_from
label_from-Dotted label [] = first_label
label_from-Dotted label (c ∷ []) = elim (Bool-cases (c == b'.')) [
  | inl y ↦ rw (y, label_from, dots) (dotted none_left)
  | inr y ↦ rw (y, label_from, dots) first_label
]
label_from-Dotted label (c ∷ d ∷ ds) = elim (Bool-cases (c == b'.')) [
  | inl y ↦ rw (y, label_from, dots) (dotted (label_from-Dotted [] (d ∷ ds)))
  | inr y ↦ rw (y, label_from, dots) (label_from-Dotted (c ∷ label) (d ∷ ds))
]

labels_of-Dotted :
    (cs : Bytes) → Dotted (elim cs [ [] ↦ [] | c ∷ ds ↦ label_from [] (c ∷ ds) ]) (dots cs)
labels_of-Dotted [] = none_left
labels_of-Dotted (c ∷ cs) = label_from-Dotted [] (c ∷ cs)

-- Each dot of a name ends a label of the walk, so only the last label may have none in front.
pub labels-Dotted : (name : Bytes) → Dotted (labels name) (dots name)
unfolding labels
labels-Dotted name =
    subst (Dotted (labels name)) (dots-reverse name) (labels_of-Dotted (reverse name))

-- What a pattern stands for: its labels from the top-level one down, and whether it covers the
-- names below them (wildcard) and their own name (exact).
pub record Meaning : Type 0 where
  pub at : List Bytes
  pub is_wildcard : Bool
  pub is_exact : Bool

abbrev pub of_name : Bytes → Bool → Bool → Meaning
of_name name w e = record { at = names (labels name); is_wildcard = w; is_exact = e }

-- A pattern with no dot other than "*" has no meaning.
unfoldable pub meaning : Bytes → Option Meaning
unfolding labels contains_byte has_prefix bytes_eq
meaning p =
    if bytes_eq p (b'*' ∷ [])
    then some (of_name [] true false)
    else if contains_byte b'.' p
    then some (
        if has_prefix p (b'*' ∷ b'.' ∷ [])
        then of_name (drop 2 p) true false
        else if has_prefix p (b'*' ∷ [])
        then of_name (drop 1 p) true true
        else of_name p false true)
    else none

abbrev covers : (Meaning → Bool) → Option Meaning → List Bytes → Bool
covers flag none q = false
covers flag (some m) q = flag m && labels_eq m.at q

module _ {ℓ} {T : Type ℓ} where
  -- `Builder.Merge` adds each pattern and ignores the error of `Add`.
  unfoldable pub add_or_keep : Bytes → T → LabelNode T → LabelNode T
  unfolding add
  add_or_keep p v n = elim (add p v n) [ ok m ↦ m | err e ↦ n ]

  unfoldable pub add_all : List (Bytes × T) → LabelNode T → LabelNode T
  unfolding add_or_keep
  add_all [] n = n
  add_all ((p, v) ∷ es) n = add_all es (add_or_keep p v n)

  -- The value of the last pattern of the list with this flag and these labels.
  unfoldable pub latest : (Meaning → Bool) → List (Bytes × T) → List Bytes → Option T
  unfolding meaning labels_eq
  latest flag [] q = none
  latest flag ((p, v) ∷ es) q =
      note (latest flag es q) (if covers flag (meaning p) q then some v else none)

  -- Which of a meaning's flags a reader of nodes goes by.
  data Follows : (LabelNode T → Option T) → (Meaning → Bool) → Type ℓ where
    by_exact : Follows exact_value (λ m. m.is_exact)
    by_wildcard : Follows wildcard_value (λ m. m.is_wildcard)

  reads :
      {get : LabelNode T → Option T} {flag : Meaning → Bool} (m : Meaning)
      → Follows get flag
      → Reads get m.is_wildcard m.is_exact (flag m)
  reads m by_exact = exact
  reads m by_wildcard = wildcard

  insert_meaning :
      {get : LabelNode T → Option T} {flag : Meaning → Bool} (name : Bytes) (w e : Bool) (v : T)
      (n : LabelNode T) (q : List Bytes)
      → Follows get flag
      → value_at get (insert_pattern name v w e n) q
        ≡ (if covers flag (some (of_name name w e)) q then some v else value_at get n q)
  unfolding insert_pattern
  insert_meaning name w e v n q f =
      value_at-insert_labels (labels name) v n q (reads (of_name name w e) f)

  -- `Add` writes what the pattern means, and nothing else.
  value_at-add_or_keep :
      {get : LabelNode T → Option T} {flag : Meaning → Bool} (p : Bytes) (v : T) (n : LabelNode T)
      (q : List Bytes)
      → Follows get flag
      → value_at get (add_or_keep p v n) q
        ≡ (if covers flag (meaning p) q then some v else value_at get n q)
  unfolding add_or_keep add meaning
  value_at-add_or_keep p v n q f = elim (Bool-cases (bytes_eq p (b'*' ∷ []))) [
    | inl y ↦ rw (y, add_or_keep) (value_at-set_values v n q (reads (of_name [] true false) f))
    | inr y ↦ elim (Bool-cases (contains_byte b'.' p)) [
      | inr z ↦ rw (y, z, add_or_keep) refl
      | inl z ↦ elim (Bool-cases (has_prefix p (b'*' ∷ b'.' ∷ []))) [
        | inl a ↦ rw (y, z, a, add_or_keep) (insert_meaning (drop 2 p) true false v n q f)
        | inr a ↦ elim (Bool-cases (has_prefix p (b'*' ∷ []))) [
          | inl b ↦ rw (y, z, a, b, add_or_keep) (insert_meaning (drop 1 p) true true v n q f)
          | inr b ↦ rw (y, z, a, b, add_or_keep) (insert_meaning p false true v n q f)
        ]
      ]
    ]
  ]

  value_at-add_all :
      {get : LabelNode T → Option T} {flag : Meaning → Bool} (es : List (Bytes × T))
      (n : LabelNode T) (q : List Bytes)
      → Follows get flag
      → value_at get (add_all es n) q ≡ note (latest flag es q) (value_at get n q)
  unfolding add_all latest
  value_at-add_all [] n q f = refl
  value_at-add_all {flag} ((p, v) ∷ es) n q f =
      value_at-add_all es (add_or_keep p v n) q f
      ∙ ap (note (latest flag es q)) (value_at-add_or_keep p v n q f)
      ∙ note_written (latest flag es q) (covers flag (meaning p) q) v _

  latest-add_all :
      {get : LabelNode T → Option T} {flag : Meaning → Bool} (es : List (Bytes × T))
      (q : List Bytes)
      → Follows get flag
      → value_at get (add_all es fresh) q ≡ latest flag es q
  latest-add_all {flag} es q f =
      value_at-add_all es fresh q f
      ∙ ap (note (latest flag es q)) (value_at-fresh q (reads (of_name [] true true) f))
      ∙ note-none (latest flag es q)

  -- The table's answer at a name: the last exact pattern for it, else the wildcard pattern with
  -- the most labels among those above it, the last one of the equal ones.
  unfoldable pub lookup_name : List (Bytes × T) → Bytes → Option T
  unfolding latest best labels
  lookup_name es name =
      let at = names (labels name) in
      note (latest (λ m. m.is_exact) es at) (best (latest (λ m. m.is_wildcard) es) at (dots name))

  -- `Find` after any run of `Add`, whose errors are ignored as `Builder.Merge` does, is the
  -- look-up in the table of the patterns: an exact pattern for the name comes first, the last one
  -- added; then the wildcard pattern with the most labels, the last one added, of those whose
  -- labels end the name behind a dot; "*" last of all.
  pub find-add_all :
      (es : List (Bytes × T)) (name : Bytes) → find (add_all es fresh) name ≡ lookup_name es name
  unfolding find lookup_name
  find-add_all es name =
      let root = add_all es fresh in
      let walk = labels name in
      ap (λ o. note o (note (find_labels walk root none).1 (wildcard_value root)))
        (exact-find_labels walk root none ∙ latest-add_all es (names walk) by_exact)
      ∙ ap (note (latest (λ m. m.is_exact) es (names walk))) (
          wildcard-find_labels root (labels-Dotted name)
          ∙ ap (λ f. best f (names walk) (dots name))
              (fun_ext (λ q. latest-add_all es q by_wildcard)))
