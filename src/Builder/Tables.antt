-- ===== src/Builder/Tables.antt =====
-- The tables that the configurations fill, and the loops of `Builder.Merge` over names.
use enimul.Common.{List, [], ◌∷◌, ◌++◌, map, ◌≡◌, refl, sym, ap, ◌∙◌, Bytes}
use enimul.Outcome.{Outcome, ok, ◌>>=◌, ok_injective, >>=-eq-ok}
use enimul.AddrTrie.Domain.{LabelNode}
use enimul.AddrTrie.Domain.Routes.{add_all, add_or_keep}
use enimul.Pattern.{split, expand_pattern}
use enimul.Builder.{add_patterns, add_elems, merge_names}

-- The patterns that the elements of a key stand for, each with the value.
unfoldable pub rows_of {ℓ} : {T : Type ℓ} → List Bytes → T → Outcome (List (Bytes × T))
unfolding expand_pattern
rows_of [] v = ok []
rows_of (e ∷ es) v = do
  ps ← expand_pattern e
  rows ← rows_of es v
  ok (map (λ p. (p, v)) ps ++ rows)

-- The table of a section of the configuration: its rows in order.
unfoldable pub table {ℓ κ} :
    {O : Type κ} {T : Type ℓ} → (O → Outcome T) → List (Bytes × O) → Outcome (List (Bytes × T))
unfolding rows_of split
table value [] = ok []
table value ((patterns, o) ∷ rest) = do
  v ← value o
  rows ← rows_of (split patterns b';') v
  more ← table value rest
  ok (rows ++ more)

module _ {ℓ} {T : Type ℓ} where
  pub add_all-append :
      (xs ys : List (Bytes × T)) (t : LabelNode T)
      → add_all (xs ++ ys) t ≡ add_all ys (add_all xs t)
  unfolding add_all
  add_all-append [] ys t = refl
  add_all-append ((p, v) ∷ xs) ys t = add_all-append xs ys (add_or_keep p v t)

  add_patterns-add_all :
      (ps : List Bytes) (v : T) (t : LabelNode T)
      → add_patterns ps v t ≡ add_all (map (λ p. (p, v)) ps) t
  unfolding add_patterns add_all
  add_patterns-add_all [] v t = refl
  add_patterns-add_all (p ∷ ps) v t = add_patterns-add_all ps v (add_or_keep p v t)

  -- The rows that a computation stands for, and the matcher with them added.
  abbrev pub Adds : Outcome (List (Bytes × T)) → LabelNode T → LabelNode T → Type ℓ
  Adds rows t t' = (es : List (Bytes × T)) × (rows ≡ ok es) × (t' ≡ add_all es t)

  add_elems-Adds :
      (elems : List Bytes) (v : T) (t t' : LabelNode T)
      → add_elems elems v t ≡ ok t'
      → Adds (rows_of elems v) t t'
  unfolding add_elems rows_of add_all
  add_elems-Adds [] v t t' h = ([], refl, ok_injective (sym h))
  add_elems-Adds (e ∷ es) v t t' h =
      let (ps, first, rest) = >>=-eq-ok (expand_pattern e) _ h in
      let (rows, more, same) = add_elems-Adds es v (add_patterns ps v t) t' rest in
      (
        map (λ p. (p, v)) ps ++ rows,
        rw (first, rows_of) (rw more refl),
        same
            ∙ ap (add_all rows) (add_patterns-add_all ps v t)
            ∙ sym (add_all-append (map (λ p. (p, v)) ps) rows t),
      )

  pub merge_names-Adds {κ} :
      {O : Type κ} (value : O → Outcome T) (entries : List (Bytes × O)) (t t' : LabelNode T)
      → merge_names value entries t ≡ ok t'
      → Adds (table value entries) t t'
  unfolding merge_names table add_all
  merge_names-Adds value [] t t' h = ([], refl, ok_injective (sym h))
  merge_names-Adds value ((patterns, o) ∷ rest) t t' h =
      let (v, valid, from_value) = >>=-eq-ok (value o) _ h in
      let (u, added, from_added) = >>=-eq-ok (add_elems (split patterns b';') v t) _ from_value in
      let (rows, first, same_u) = add_elems-Adds (split patterns b';') v t u added in
      let (more, others, same_t') = merge_names-Adds value rest u t' from_added in
      (
        rows ++ more,
        rw (valid, table) (rw first (rw others refl)),
        same_t' ∙ ap (add_all more) same_u ∙ sym (add_all-append rows more t),
      )
