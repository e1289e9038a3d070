-- ===== src/Jsonx.antt =====
-- internal/jsonx/types.go: the three-valued `Bool` and the optional `Byte` of the configuration.
pub mod OrderedMap
pub mod Members
mod Tests
use enimul.Common.{ℕ, Bool, true, false, not, ◌||◌}

pub data JsonBool : Type 0 where
  bool_unset bool_false bool_true : JsonBool

-- `Bool.IsTrue`
unfoldable pub is_true : JsonBool → Bool
is_true bool_true = true
is_true _ = false

-- `Bool.IsUnset`
unfoldable pub is_unset : JsonBool → Bool
is_unset bool_unset = true
is_unset _ = false

-- `Byte`: its value, whether it is set, and whether it was set to `false`.
pub record JsonByte : Type 0 where
  pub byte : ℕ
  pub valid : Bool
  pub zero : Bool

-- `Byte.IsUnset`
unfoldable pub byte_is_unset : JsonByte → Bool
byte_is_unset b = not b.valid

-- `Byte.IsZero`
unfoldable pub byte_is_zero : JsonByte → Bool
unfolding byte_is_unset
byte_is_zero b = byte_is_unset b || b.zero
