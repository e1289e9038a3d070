-- ===== src/AddrTrie/BitTrie/Longest.antt =====
-- `Find` against the entries: the value of the longest prefix of the address that has one.
use enimul.Common.{
  ℕ, zero, suc, ◌+◌, Bool, true, false, not, Option, none, some, [], ◌∷◌, ◌≡◌, refl, subst, sym,
  ◌∙◌, ap, inl, inr, arith, ◌==◌, if◌then◌else◌, Bool-cases, length, take, note, best, note_assoc,
  note-none, note_twice, note-ne-none,
}
use enimul.AddrTrie.BitTrie.{
  BitNode, nil, node, value_of, is_nil, child, find_loop, conclude, find_from,
}
use enimul.AddrTrie.BitTrie.Entries.{BitPath, path_from, entry, IsNode}

pub length-path_from : (bit : ℕ → ℕ) (i n : ℕ) → length (path_from bit i n) ≡ n
length-path_from bit i zero = refl
length-path_from bit i (suc n) = ap suc (length-path_from bit (i + 1) n)

module _ {ℓ} {T : Type ℓ} where
  -- The walk of `Find`, with the value matched so far.
  deepest : BitNode T → BitPath → Option T → Option T
  deepest nil p m = m
  deepest (node l r x) [] m = note x m
  deepest (node l r x) (b ∷ p) m = deepest (if b then r else l) p (note x m)

  abbrev finish : BitNode T × Option T → Option T
  finish (cur, m) = note (value_of cur) m

  child_turn :
      (b : ℕ) (l r : BitNode T) (x : Option T)
      → child b (node l r x) ≡ (if not (b == 0) then r else l)
  child_turn b l r x = elim (Bool-cases (b == 0)) [ inl e ↦ rw e refl | inr e ↦ rw e refl ]

  -- One round: the walk stops at `cur`, or goes on from a child that is there.
  turn :
      (bit : ℕ → ℕ) (n i : ℕ) (cur next : BitNode T) (m : Option T)
      → ((k : IsNode next)
          → finish (find_loop bit n (i + 1) next (note (value_of cur) m))
            ≡ deepest next (path_from bit (i + 1) n) (note (value_of cur) m))
      → finish (elim (is_nil next) [
        | true ↦ (cur, note (value_of cur) m)
        | false ↦ find_loop bit n (i + 1) next (note (value_of cur) m)
      ])
        ≡ deepest next (path_from bit (i + 1) n) (note (value_of cur) m)
  unfolding deepest
  turn bit n i cur nil m ih = note_twice (value_of cur) m
  turn bit n i cur (node l r x) m ih = ih tt

  finish-find_loop :
      (bit : ℕ → ℕ) (n i : ℕ) (cur : BitNode T) (m : Option T)
      → IsNode cur
      → finish (find_loop bit n i cur m) ≡ deepest cur (path_from bit i n) m
  unfolding find_loop deepest
  finish-find_loop bit zero i nil m h = elim h [ ]
  finish-find_loop bit (suc n) i nil m h = elim h [ ]
  finish-find_loop bit zero i (node l r x) m h = refl
  finish-find_loop bit (suc n) i (node l r x) m h =
      subst
        (λ t.
          finish (find_loop bit (suc n) i (node l r x) m)
          ≡ deepest t (path_from bit (i + 1) n) (note x m))
        (child_turn (bit i) l r x)
        (turn bit n i (node l r x) (child (bit i) (node l r x)) m
          (finish-find_loop bit n (i + 1) (child (bit i) (node l r x)) (note x m)))

  best_nil : (q : BitPath) (k : ℕ) → best (entry {T = T} nil) q k ≡ none
  unfolding best entry
  best_nil q zero = refl
  best_nil q (suc k) = best_nil q k

  best_node :
      (l r : BitNode T) (x : Option T) (b : Bool) (p : BitPath) (k : ℕ)
      → best (entry (node l r x)) (b ∷ p) (suc k) ≡ note (best (entry (if b then r else l)) p k) x
  unfolding best entry
  best_node l r x b p zero = refl
  best_node l r x b p (suc k) =
      ap (note (entry (if b then r else l) (take (suc k) p))) (best_node l r x b p k)
      ∙ sym (note_assoc (entry (if b then r else l) (take (suc k) p)) _ x)

  deepest-best :
      (t : BitNode T) (p : BitPath) (m : Option T)
      → deepest t p m ≡ note (best (entry t) p (length p)) m
  unfolding deepest
  deepest-best nil p m = rw (best_nil p (length p))
  deepest-best (node l r x) [] m = unfold best entry in refl
  deepest-best (node l r x) (b ∷ p) m =
      deepest-best (if b then r else l) p (note x m)
      ∙ sym (note_assoc (best (entry (if b then r else l)) p (length p)) x m)
      ∙ ap (λ o. note o m) (sym (best_node l r x b p (length p)))

  -- The root's own value, which `Find` falls back to, is found on the way already.
  root_first :
      (t : BitNode T) (p : BitPath) (m : Option T) → deepest t p m ≡ none → value_of t ≡ none
  unfolding deepest
  root_first nil p m e = refl
  root_first (node l r x) [] m e = ground arith
  root_first (node l r none) (b ∷ p) m e = refl
  root_first (node l r (some v)) (b ∷ p) m e = absurd (
      note-ne-none (best (entry (if b then r else l)) p (length p)) v
        (sym (deepest-best (if b then r else l) p (some v)) ∙ e))

  conclude-finish :
      (root : BitNode T) (r : BitNode T × Option T)
      → (finish r ≡ none → value_of root ≡ none)
      → conclude root r ≡ finish r
  conclude-finish root (nil, none) h = h refl
  conclude-finish root (nil, some w) h = refl
  conclude-finish root (node l r none, none) h = h refl
  conclude-finish root (node l r none, some w) h = refl
  conclude-finish root (node l r (some v), m) h = refl

  pub find_from-best :
      (bit : ℕ → ℕ) (n : ℕ) (root : BitNode T)
      → IsNode root
      → find_from bit n root ≡ best (entry root) (path_from bit 0 n) n
  unfolding find_from
  find_from-best bit n root h =
      let q = path_from bit 0 n in
      let walked = finish-find_loop bit n 0 root none h in
      conclude-finish root (find_loop bit n 0 root none)
        (λ e. root_first root q none (sym walked ∙ e))
      ∙ walked
      ∙ deepest-best root q none
      ∙ note-none (best (entry root) q (length q))
      ∙ ap (best (entry root) q) (length-path_from bit 0 n)
