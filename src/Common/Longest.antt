-- ===== src/Common/Longest.antt =====
-- The first value that is there, and the value of the longest prefix that has one.
use Prim.Native.Nat.{ℕ, zero, suc}
use mathlib.Core.Path.{◌≡◌, refl}
use mathlib.Core.Logic.{◌≢◌}
use mathlib.Core.Bool.{Bool, true, false}
use mathlib.Core.List.{List}
use mathlib.Core.Option.{Option, none, some}
use enimul.Common.Tests.{if◌then◌else◌}
use enimul.Common.Lists.{take}

module _ {ℓ} {T : Type ℓ} where
  -- `if exists { matched = value }`: the first of two values, where it is there.
  abbrev pub note : Option T → Option T → Option T
  note none m = m
  note (some v) m = some v

  pub note_assoc : (a b c : Option T) → note (note a b) c ≡ note a (note b c)
  note_assoc none b c = refl
  note_assoc (some v) b c = refl

  pub note-none : (a : Option T) → note a none ≡ a
  note-none none = refl
  note-none (some v) = refl

  pub note_twice : (a m : Option T) → note a (note a m) ≡ note a m
  note_twice none m = refl
  note_twice (some v) m = refl

  pub note-ne-none : (a : Option T) (v : T) → note a (some v) ≢ none
  note-ne-none none v e = cc
  note-ne-none (some w) v e = cc

  -- A write under a condition, in front of an older value.
  pub note_written :
      (o : Option T) (b : Bool) (v : T) (x : Option T)
      → note o (if b then some v else x) ≡ note (note o (if b then some v else none)) x
  note_written none true v x = refl
  note_written none false v x = refl
  note_written (some w) b v x = refl

  -- The values at the prefixes of `q` with at most `k` items, the longest first.
  unfoldable pub best {κ} : {A : Type κ} → (List A → Option T) → List A → ℕ → Option T
  best f q zero = f List.[]
  best f q (suc k) = note (f (take (suc k) q)) (best f q k)
