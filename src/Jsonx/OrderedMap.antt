-- ===== src/Jsonx/OrderedMap.antt =====
-- internal/jsonx/orderedmap.go: a JSON object with its keys in the order of the text.
use enimul.Common.{
  ℕ, Option, none, some, List, [], ◌∷◌, ◌++◌, map, if◌then◌else◌, Bytes, bytes_eq, note, length,
}

-- `OrderedMap`, over an association list in place of the map.
pub record OrderedMap {ℓ} (T : Type ℓ) : Type ℓ where
  pub keys : List Bytes
  pub values : List (Bytes × T)

module _ {ℓ} {T : Type ℓ} where
  -- `m.values[key]`
  unfoldable pub get_value : Bytes → List (Bytes × T) → Option T
  unfolding bytes_eq
  get_value key [] = none
  get_value key ((k, v) ∷ vs) = if bytes_eq k key then some v else get_value key vs

  -- `values[key] = v`
  unfoldable pub set_value : Bytes → T → List (Bytes × T) → List (Bytes × T)
  unfolding bytes_eq
  set_value key v [] = (key, v) ∷ []
  set_value key v ((k, w) ∷ vs) =
      let rest = set_value key v vs in if bytes_eq k key then (k, v) ∷ vs else (k, w) ∷ rest

  -- `OrderedMap.Get` of a map that is not nil.
  unfoldable pub get : OrderedMap T → Bytes → Option T
  unfolding get_value
  get m key = get_value key m.values

  -- `OrderedMap.Len`
  unfoldable pub len : OrderedMap T → ℕ
  len m = length m.keys

  abbrev pub empty : OrderedMap T
  empty = record { keys = []; values = [] }

  -- The loop of `OrderedMap.UnmarshalJSON`, over the members that the decoder returns.
  unfoldable pub collect : List (Bytes × T) → OrderedMap T → OrderedMap T
  unfolding set_value
  collect [] m = m
  collect ((key, v) ∷ members) m =
      collect members (record { keys = m.keys ++ key ∷ []; values = set_value key v m.values })

  -- A key that is missing gives the zero value.
  abbrev pub value_or : T → Option T → T
  value_or zero_value none = zero_value
  value_or zero_value (some v) = v

  -- `OrderedMap.All`: what it yields.
  unfoldable pub all : T → OrderedMap T → List (Bytes × T)
  unfolding get_value
  all zero_value m = map (λ key. (key, value_or zero_value (get_value key m.values))) m.keys

  -- The value of the last member with a key.
  unfoldable pub last_value : Bytes → List (Bytes × T) → Option T
  unfolding bytes_eq
  last_value key [] = none
  last_value key ((k, v) ∷ ms) = note (last_value key ms) (if bytes_eq k key then some v else none)
