-- ===== src/Common/Strings.antt =====
-- The functions of Go's strings and bytes packages that the source uses, on byte lists.
use Prim.Native.Nat.{ℕ}
use mathlib.Core.Bool.{Bool, true, false, ◌&&◌}
use mathlib.Core.List.{[], ◌∷◌}
use enimul.Common.Tests.{◌==◌, Bytes}

-- `strings.Contains(s, ".")`, for the byte `b` in place of the dot.
unfoldable pub contains_byte : ℕ → Bytes → Bool
contains_byte b [] = false
contains_byte b (c ∷ cs) = elim (c == b) [ true ↦ true | false ↦ contains_byte b cs ]

-- `strings.HasPrefix(s, prefix)`
unfoldable pub has_prefix : Bytes → Bytes → Bool
has_prefix s [] = true
has_prefix [] (p ∷ ps) = false
has_prefix (c ∷ s) (p ∷ ps) = c == p && has_prefix s ps
