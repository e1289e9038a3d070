-- ===== src/AddrTrie/Domain/Entries.antt =====
-- The values of the domain trie by their label lists: what an insertion writes, and what the walk
-- of `Find` reads.
use enimul.Common.{
  ℕ, zero, suc, Bool, true, false, ◌&&◌, Option, none, some, List, [], ◌∷◌, ◌≡◌, refl, sym, ap, ◌∙◌,
  inl, inr, arith, if◌then◌else◌, Bool-cases, Option-cases, take, Bytes, bytes_eq, bytes_eq_iff,
  note, best, note_assoc, note-none,
}
use enimul.AddrTrie.Domain.{
  LabelNode, node, Children, nil, cons, get_child, set_child, fresh, or_fresh, set_values,
  insert_labels, exact_value, wildcard_value, children, find_labels,
}

unfoldable pub labels_eq : List Bytes → List Bytes → Bool
unfolding bytes_eq
labels_eq [] [] = true
labels_eq (x ∷ xs) (y ∷ ys) = bytes_eq x y && labels_eq xs ys
labels_eq _ _ = false

abbrev pub names : List (Bytes × Bool) → List Bytes
names [] = []
names ((l, dotted) ∷ ls) = l ∷ names ls

-- `m` labels of the list have a dot in front of them: all, or all but the last.
pub data Dotted : List (Bytes × Bool) → ℕ → Type 0 where
  none_left : Dotted [] 0
  first_label : {l : Bytes} → Dotted ((l, false) ∷ []) 0
  dotted :
      {l : Bytes} {ls : List (Bytes × Bool)} {m : ℕ} → Dotted ls m → Dotted ((l, true) ∷ ls) (suc m)

and_false : (b : Bool) → (b && false) ≡ false
and_false true = refl
and_false false = refl

module _ {ℓ} {T : Type ℓ} where
  get_child-set_child :
      (l q : Bytes) (n : LabelNode T) (cs : Children T)
      → get_child q (set_child l n cs) ≡ (if bytes_eq l q then some n else get_child q cs)
  unfolding get_child set_child
  get_child-set_child l q n nil = refl
  get_child-set_child l q n (cons k m cs) =
      ground
        (arith, bytes_eq_iff k l, bytes_eq_iff k q, bytes_eq_iff l q, get_child-set_child l q n cs)

  abbrev below : (LabelNode T → Option T) → Option (LabelNode T) → Option T
  below f none = none
  below f (some m) = f m

  -- The value that `get` reads of the node under the labels of a list.
  unfoldable pub value_at : (LabelNode T → Option T) → LabelNode T → List Bytes → Option T
  unfolding get_child
  value_at get n [] = get n
  value_at get n (l ∷ ls) = below (λ m. value_at get m ls) (get_child l (children n))

  -- Reads the exact value, or reads the wildcard value.
  pub data Reads : (LabelNode T → Option T) → Bool → Bool → Bool → Type ℓ where
    exact : {w e : Bool} → Reads exact_value w e e
    wildcard : {w e : Bool} → Reads wildcard_value w e w

  pub value_at-fresh :
      {get : LabelNode T → Option T} {w e flag : Bool} (q : List Bytes)
      → Reads get w e flag
      → value_at get fresh q ≡ none
  unfolding value_at get_child
  value_at-fresh [] exact = refl
  value_at-fresh [] wildcard = refl
  value_at-fresh (l ∷ q) r = refl

  value_at-or_fresh :
      {get : LabelNode T → Option T} {w e flag : Bool} (o : Option (LabelNode T)) (q : List Bytes)
      → Reads get w e flag
      → value_at get (or_fresh o) q ≡ below (λ m. value_at get m q) o
  value_at-or_fresh none q r = value_at-fresh q r
  value_at-or_fresh (some m) q r = refl

  pub value_at-set_values :
      {get : LabelNode T → Option T} {w e flag : Bool} (v : T) (n : LabelNode T) (q : List Bytes)
      → Reads get w e flag
      → value_at get (set_values v w e n) q
        ≡ (if flag && labels_eq [] q then some v else value_at get n q)
  unfolding value_at labels_eq
  value_at-set_values v (node cs x y) [] (exact {e = true}) = refl
  value_at-set_values v (node cs x y) [] (exact {e = false}) = refl
  value_at-set_values v (node cs x y) [] (wildcard {w = true}) = refl
  value_at-set_values v (node cs x y) [] (wildcard {w = false}) = refl
  value_at-set_values v (node cs x y) (l ∷ q) (exact {e = true}) = refl
  value_at-set_values v (node cs x y) (l ∷ q) (exact {e = false}) = refl
  value_at-set_values v (node cs x y) (l ∷ q) (wildcard {w = true}) = refl
  value_at-set_values v (node cs x y) (l ∷ q) (wildcard {w = false}) = refl

  same_values :
      {get : LabelNode T → Option T} {w e flag : Bool} (cs cs' : Children T) (x y : Option T)
      → Reads get w e flag
      → get (node cs x y) ≡ get (node cs' x y)
  same_values cs cs' x y exact = refl
  same_values cs cs' x y wildcard = refl

  -- An insertion writes the value at its labels, and leaves every other value.
  pub value_at-insert_labels :
      {get : LabelNode T → Option T} {w e flag : Bool} (ls : List (Bytes × Bool)) (v : T)
      (n : LabelNode T) (q : List Bytes)
      → Reads get w e flag
      → value_at get (insert_labels ls v w e n) q
        ≡ (if flag && labels_eq (names ls) q then some v else value_at get n q)
  unfolding insert_labels value_at labels_eq
  value_at-insert_labels [] v n q r = value_at-set_values v n q r
  value_at-insert_labels {flag} ((l, d) ∷ ls) v (node cs x y) [] r =
      rw (and_false flag) (same_values _ cs x y r)
  value_at-insert_labels {get} {w} {e} {flag} ((l, d) ∷ ls) v (node cs x y) (k ∷ q) r =
      let under = λ (m : LabelNode T). value_at get m q in
      let child = insert_labels ls v w e (or_fresh (get_child l cs)) in
      let written = λ (b : Bool). below under (if b then some child else get_child k cs) in
      ap (below under) (get_child-set_child l k child cs) ∙ elim (Bool-cases (bytes_eq l k)) [
        | inl same ↦
            ap written same
            ∙ value_at-insert_labels ls v (or_fresh (get_child l cs)) q r
            ∙ rw same (
                ap (λ o. if flag && labels_eq (names ls) q then some v else o)
                  (value_at-or_fresh (get_child l cs) q r
                    ∙ ap (λ b. below under (get_child b cs)) ((bytes_eq_iff l k).0 same)))
        | inr other ↦ ap written other ∙ rw (other, and_false flag) refl
      ]

  note-below :
      (o : Option (LabelNode T)) (f g : LabelNode T → Option T) (w : Option T)
      → note (below f o) (note (below g o) w) ≡ note (below (λ m. note (f m) (g m)) o) w
  note-below none f g w = refl
  note-below (some m) f g w = sym (note_assoc (f m) (g m) w)

  best-step :
      (n : LabelNode T) (l : Bytes) (ls : List Bytes) (k : ℕ)
      → best (value_at wildcard_value n) (l ∷ ls) (suc k)
        ≡ note
            (below (λ m. best (value_at wildcard_value m) ls k) (get_child l (children n)))
            (wildcard_value n)
  unfolding best value_at
  best-step n l ls zero = refl
  best-step n l ls (suc k) =
      ap
        (note (below (λ m. value_at wildcard_value m (take (suc k) ls)) (get_child l (children n))))
        (best-step n l ls k)
      ∙ note-below (get_child l (children n)) (λ m. value_at wildcard_value m (take (suc k) ls))
          (λ m. best (value_at wildcard_value m) ls k) (wildcard_value n)

  -- `if fullyMatched && node.hasExact`
  pub exact-find_labels :
      (ls : List (Bytes × Bool)) (n : LabelNode T) (c : Option T)
      → (if (find_labels ls n c).0.1 then exact_value (find_labels ls n c).0.0 else none)
        ≡ value_at exact_value n (names ls)
  unfolding find_labels value_at
  exact-find_labels [] n c = refl
  exact-find_labels ((l, d) ∷ ls) n c = elim (Option-cases (get_child l (children n))) [
    | inl e ↦ rw (e, find_labels) refl
    | inr (m, e) ↦
        rw (e, find_labels) (exact-find_labels ls m (if d then note (wildcard_value m) c else c))
  ]

  -- An older candidate stays behind the ones that the walk finds.
  candidate_behind :
      (ls : List (Bytes × Bool)) (n : LabelNode T) (c w : Option T)
      → note (find_labels ls n c).1 w ≡ (find_labels ls n (note c w)).1
  unfolding find_labels
  candidate_behind [] n c w = refl
  candidate_behind ((l, true) ∷ ls) n c w = elim (Option-cases (get_child l (children n))) [
    | inl e ↦ rw (e, find_labels) refl
    | inr (m, e) ↦
        rw (e, find_labels)
          (candidate_behind ls m (note (wildcard_value m) c) w
            ∙ ap (λ o. (find_labels ls m o).1) (note_assoc (wildcard_value m) c w))
  ]
  candidate_behind ((l, false) ∷ ls) n c w = elim (Option-cases (get_child l (children n))) [
    | inl e ↦ rw (e, find_labels) refl
    | inr (m, e) ↦ rw (e, find_labels) (candidate_behind ls m c w)
  ]

  candidate-find_labels :
      {ls : List (Bytes × Bool)} {m : ℕ} (n : LabelNode T) (c : Option T)
      → Dotted ls m
      → (find_labels ls n (note (wildcard_value n) c)).1
        ≡ note (best (value_at wildcard_value n) (names ls) m) c
  unfolding find_labels
  candidate-find_labels n c none_left = unfold best value_at in refl
  candidate-find_labels n c (first_label {l}) = elim (Option-cases (get_child l (children n))) [
    | inl e ↦ rw (e, find_labels) (unfold best value_at in refl)
    | inr (m, e) ↦ rw (e, find_labels) (unfold best value_at in refl)
  ]
  candidate-find_labels n c (dotted {l} {ls} {m} d) =
      elim (Option-cases (get_child l (children n))) [
        | inl e ↦ rw (best-step n l (names ls) m) (rw (e, find_labels) refl)
        | inr (k, e) ↦ rw (best-step n l (names ls) m) (
            rw (e, find_labels)
              (candidate-find_labels k (note (wildcard_value n) c) d
                ∙ sym (
                    note_assoc (best (value_at wildcard_value k) (names ls) m) (wildcard_value n)
                      c)))
      ]

  -- The walk and the root's wildcard together: the wildcard of the longest list of labels.
  pub wildcard-find_labels :
      {ls : List (Bytes × Bool)} {m : ℕ} (n : LabelNode T)
      → Dotted ls m
      → note (find_labels ls n none).1 (wildcard_value n)
        ≡ best (value_at wildcard_value n) (names ls) m
  wildcard-find_labels {ls} n d =
      candidate_behind ls n none (wildcard_value n)
      ∙ ap (λ o. (find_labels ls n o).1) (sym (note-none (wildcard_value n)))
      ∙ candidate-find_labels n none d
      ∙ note-none _
