-- ===== src/Pattern.antt =====
-- internal/core/core.go: `expandPattern`, which writes out the alternatives of a pattern, and the
-- functions of Go's strings package that it uses.
pub mod Words
pub mod Groups
mod Tests
use mathlib.Core.List.{flatten}
use enimul.Common.{
  ℕ, zero, suc, ◌+◌, Bool, true, false, ◌&&◌, ◌||◌, Option, none, some, List, [], ◌∷◌, ◌++◌, map,
  leb, ◌==◌, if◌then◌else◌, Bytes, length, take, drop, slice,
}
use enimul.Outcome.{Outcome, ok, panic, ◌>>=◌}
use enimul.Fragment.{slice?, slice_from?}

-- `strings.IndexByte`; -1 is `none`.
unfoldable pub index_byte : Bytes → ℕ → Option ℕ
index_byte [] b = none
index_byte (c ∷ cs) b =
    if c == b then some 0 else elim (index_byte cs b) [ some i ↦ some (i + 1) | none ↦ none ]

-- Puts a byte in front of the first part.
abbrev pub onto_first : ℕ → List Bytes → List Bytes
onto_first c [] = (c ∷ []) ∷ []
onto_first c (p ∷ ps) = (c ∷ p) ∷ ps

-- `strings.Split` and `strings.SplitSeq` for a separator of one byte.
unfoldable pub split : Bytes → ℕ → List Bytes
split [] sep = [] ∷ []
split (c ∷ cs) sep = let rest = split cs sep in if c == sep then [] ∷ rest else onto_first c rest

-- The two loops over the parts and over the results for the suffix.
unfoldable pub combine : Bytes → List Bytes → List Bytes → List Bytes
unfolding flatten
combine prefix parts suffixes =
    flatten (map (λ part. map (λ suffix. prefix ++ part ++ suffix) suffixes) parts)

-- `expandPattern`; the suffix is shorter than the pattern, and no fuel would be a panic.
unfoldable pub expand_loop : ℕ → Bytes → Outcome (List Bytes)
unfolding index_byte split combine
expand_loop zero s = panic
expand_loop (suc fuel) s = elim (index_byte s b'(') [
  | none ↦ ok (split s b'|')
  | some left ↦ elim (index_byte s b')') [
    | none ↦ ok (split s b'|')
    | some right ↦ (do
      prefix ← slice? s 0 left
      inner ← slice? s (left + 1) right
      suffix ← slice_from? s (right + 1)
      results ← expand_loop fuel suffix
      ok (combine prefix (split inner b'|') results))
  ]
]

unfoldable pub expand_pattern : Bytes → Outcome (List Bytes)
unfolding expand_loop
expand_pattern s = expand_loop (suc (length s)) s
