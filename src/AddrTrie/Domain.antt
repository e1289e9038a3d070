-- ===== src/AddrTrie/Domain.antt =====
-- internal/addrtrie/domain.go: the trie of domain labels, from the top-level label down.
pub mod Entries
pub mod Routes
use Prim.Native.String.{String}
use mathlib.Core.List.{reverse}
use enimul.Common.{
  ℕ, zero, suc, Bool, true, false, ◌&&◌, Option, none, some, List, [], ◌∷◌, ◌==◌, if◌then◌else◌,
  Bytes, bytes_eq, note, drop, contains_byte, has_prefix,
}
use enimul.Common.Result.{Error, msg_with, Result, ok, err}

-- `labelNode`: its children, then the exact value and the wildcard value, `none` where
-- `hasExact` or `hasWildcard` is false. A map is an association list.
mutual
  pub data LabelNode {ℓ} (T : Type ℓ) : Type ℓ where
    node : Children T → Option T → Option T → LabelNode T

  pub data Children {ℓ} (T : Type ℓ) : Type ℓ where
    nil : Children T
    cons : Bytes → LabelNode T → Children T → Children T

-- The labels that the loops of `insertPattern` and `Find` walk, from the last one, each with
-- `j != -1`: whether a dot stands in front of it. The prefix of the name that is left to read is
-- kept reversed, so its head is `pattern[i]`; `label` is what was read behind the last dot.
label_from : Bytes → Bytes → List (Bytes × Bool)
label_from label [] = (label, false) ∷ []
label_from label (c ∷ cs) = elim (c == b'.') [
  | true ↦ (label, true) ∷ elim cs [ [] ↦ [] | d ∷ ds ↦ label_from [] cs ]
  | false ↦ label_from (c ∷ label) cs
]

-- No round where `i` is -1 at the start.
unfoldable pub labels : Bytes → List (Bytes × Bool)
unfolding label_from
labels name = elim (reverse name) [ [] ↦ [] | c ∷ cs ↦ label_from [] (c ∷ cs) ]

module _ {ℓ} {T : Type ℓ} where
  -- `node.children[label]`
  unfoldable pub get_child : Bytes → Children T → Option (LabelNode T)
  get_child label nil = none
  get_child label (cons k n rest) = if bytes_eq k label then some n else get_child label rest

  unfoldable pub set_child : Bytes → LabelNode T → Children T → Children T
  set_child label n nil = cons label n nil
  set_child label n (cons k m rest) =
      if bytes_eq k label then cons k n rest else cons k m (set_child label n rest)

  abbrev pub fresh : LabelNode T
  fresh = node nil none none

  abbrev pub or_fresh : Option (LabelNode T) → LabelNode T
  or_fresh none = fresh
  or_fresh (some n) = n

  -- `if isWildcard {…}; if isExact {…}`
  abbrev pub set_values : T → Bool → Bool → LabelNode T → LabelNode T
  set_values v is_wildcard is_exact (node cs exact wild) =
      node cs (if is_exact then some v else exact) (if is_wildcard then some v else wild)

  -- The loop of `insertPattern` and the writes behind it.
  unfoldable pub insert_labels : List (Bytes × Bool) → T → Bool → Bool → LabelNode T → LabelNode T
  unfolding get_child set_child bytes_eq
  insert_labels [] v is_wildcard is_exact n = set_values v is_wildcard is_exact n
  insert_labels ((label, dotted) ∷ ls) v is_wildcard is_exact (node cs exact wild) =
      node
        (set_child label (insert_labels ls v is_wildcard is_exact (or_fresh (get_child label cs)))
          cs)
        exact wild

  -- `insertPattern`
  unfoldable pub insert_pattern : Bytes → T → Bool → Bool → LabelNode T → LabelNode T
  unfolding insert_labels labels
  insert_pattern pattern v is_wildcard is_exact root =
      insert_labels (labels pattern) v is_wildcard is_exact root

  -- `DomainMatcher.Add`
  unfoldable pub add : Bytes → T → LabelNode T → Result (LabelNode T)
  unfolding insert_pattern contains_byte has_prefix bytes_eq
  add pattern v root =
      if bytes_eq pattern (b'*' ∷ [])
      then ok (set_values v true false root)
      else if contains_byte b'.' pattern
      then ok (
          if has_prefix pattern (b'*' ∷ b'.' ∷ [])
          then insert_pattern (drop 2 pattern) v true false root
          else if has_prefix pattern (b'*' ∷ [])
          then insert_pattern (drop 1 pattern) v true true root
          else insert_pattern pattern v false true root)
      else err (msg_with "invalid pattern: " pattern)

  abbrev pub exact_value : LabelNode T → Option T
  exact_value (node cs exact wild) = exact

  abbrev pub wildcard_value : LabelNode T → Option T
  wildcard_value (node cs exact wild) = wild

  abbrev pub children : LabelNode T → Children T
  children (node cs exact wild) = cs

  -- The loop of `Find`: the node that it stops at with `fullyMatched`, and the candidate.
  unfoldable pub find_labels :
      List (Bytes × Bool) → LabelNode T → Option T → (LabelNode T × Bool) × Option T
  unfolding get_child bytes_eq
  find_labels [] n candidate = ((n, true), candidate)
  find_labels ((label, dotted) ∷ ls) n candidate = elim (get_child label (children n)) [
    | none ↦ ((n, false), candidate)
    | some next ↦
        find_labels ls next (if dotted then note (wildcard_value next) candidate else candidate)
  ]

  -- What `Find` returns behind the loop.
  abbrev pub conclude : LabelNode T → (LabelNode T × Bool) × Option T → Option T
  conclude root ((n, fully), candidate) =
      note (if fully then exact_value n else none) (note candidate (wildcard_value root))

  -- `DomainMatcher.Find`
  unfoldable pub find : LabelNode T → Bytes → Option T
  unfolding find_labels labels
  find root domain = conclude root (find_labels (labels domain) root none)
