-- ===== src/AddrTrie/BitTrie/Entries.antt =====
-- The entries of a trie: which value stands at which path, and what an insertion changes.
use enimul.Common.{
  ℕ, zero, suc, ◌+◌, Bool, true, false, not, ◌&&◌, Option, none, some, List, [], ◌∷◌, ◌≡◌, refl,
  inl, inr, ◌==◌, if◌then◌else◌, Bool-cases,
}
use enimul.AddrTrie.BitTrie.{BitNode, nil, node, alloc, insert_loop}

-- A path is a list of bits, the first bit at the head.
abbrev pub BitPath : Type 0
BitPath = List Bool

-- The `n` bits from bit `i` on.
abbrev pub path_from : (ℕ → ℕ) → ℕ → ℕ → BitPath
path_from bit i zero = []
path_from bit i (suc n) = not (bit i == 0) ∷ path_from bit (i + 1) n

abbrev pub bit_eq : Bool → Bool → Bool
bit_eq true b = b
bit_eq false b = not b

unfoldable pub path_eq : BitPath → BitPath → Bool
path_eq [] [] = true
path_eq (x ∷ xs) (y ∷ ys) = bit_eq x y && path_eq xs ys
path_eq _ _ = false

module _ {ℓ} {T : Type ℓ} where
  -- The value that stands at the end of a path.
  unfoldable pub entry : BitNode T → BitPath → Option T
  entry nil p = none
  entry (node l r x) [] = x
  entry (node l r x) (b ∷ p) = entry (if b then r else l) p

  pub entry-alloc : (t : BitNode T) (p : BitPath) → entry (alloc t) p ≡ entry t p
  unfolding entry
  entry-alloc nil [] = refl
  entry-alloc nil (true ∷ p) = refl
  entry-alloc nil (false ∷ p) = refl
  entry-alloc (node l r x) p = refl

  -- A pointer that is not nil.
  abbrev pub IsNode : BitNode T → Type 0
  IsNode nil = ⊥
  IsNode (node l r x) = Unit

  pub alloc-IsNode : (t : BitNode T) → IsNode (alloc t)
  alloc-IsNode nil = tt
  alloc-IsNode (node l r x) = tt

  pub insert_loop-IsNode :
      (bit : ℕ → ℕ) (n i : ℕ) (v : T) (t : BitNode T) → IsNode t → IsNode (insert_loop bit n i v t)
  unfolding insert_loop
  insert_loop-IsNode bit zero i v nil h = elim h [ ]
  insert_loop-IsNode bit (suc n) i v nil h = elim h [ ]
  insert_loop-IsNode bit zero i v (node l r x) h = tt
  insert_loop-IsNode bit (suc n) i v (node l r x) h = elim (Bool-cases (bit i == 0)) [
    | inl e ↦ rw (e, IsNode) tt
    | inr e ↦ rw (e, IsNode) tt
  ]

  -- An insertion writes the entry at its path and leaves every other entry.
  pub entry-insert_loop :
      (bit : ℕ → ℕ) (n i : ℕ) (v : T) (t : BitNode T) (q : BitPath)
      → IsNode t
      → entry (insert_loop bit n i v t) q
        ≡ (if path_eq (path_from bit i n) q then some v else entry t q)
  unfolding insert_loop entry path_eq
  entry-insert_loop bit zero i v nil q h = elim h [ ]
  entry-insert_loop bit (suc n) i v nil q h = elim h [ ]
  entry-insert_loop bit zero i v (node l r x) [] h = refl
  entry-insert_loop bit zero i v (node l r x) (b ∷ q) h = refl
  entry-insert_loop bit (suc n) i v (node l r x) [] h = elim (Bool-cases (bit i == 0)) [
    | inl e ↦ rw (e, entry) refl
    | inr e ↦ rw (e, entry) refl
  ]
  entry-insert_loop bit (suc n) i v (node l r x) (true ∷ q) h = elim (Bool-cases (bit i == 0)) [
    | inl e ↦ rw (e, entry) refl
    | inr e ↦
        rw (e, entry)
          (rw (entry-insert_loop bit n (i + 1) v (alloc r) q (alloc-IsNode r))
            (rw (entry-alloc r q)))
  ]
  entry-insert_loop bit (suc n) i v (node l r x) (false ∷ q) h = elim (Bool-cases (bit i == 0)) [
    | inl e ↦
        rw (e, entry)
          (rw (entry-insert_loop bit n (i + 1) v (alloc l) q (alloc-IsNode l))
            (rw (entry-alloc l q)))
    | inr e ↦ rw (e, entry) refl
  ]
