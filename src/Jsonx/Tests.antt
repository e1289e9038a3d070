-- ===== src/Jsonx/Tests.antt =====
-- A decoded object, and its theorem at an input with a repeated key.
use enimul.Common.{ℕ, List, [], ◌∷◌, map, ◌≡◌, refl, Bytes, length}
use enimul.Jsonx.OrderedMap.{get, len, empty, collect, value_or, all, last_value}
use enimul.Jsonx.Members.{key_of, all-collect}

abbrev twice : List (Bytes × ℕ)
twice = (b'k' ∷ [], 1) ∷ (b'j' ∷ [], 2) ∷ (b'k' ∷ [], 3) ∷ []

-- The first value of the key is lost, and the last one comes twice.
all_of_twice : all 0 (collect twice empty) ≡ (b'k' ∷ [], 3) ∷ (b'j' ∷ [], 2) ∷ (b'k' ∷ [], 3) ∷ []
unfolding all collect
all_of_twice = refl

all-collect_example :
    (len (collect twice empty) ≡ length twice)
    × (all 0 (collect twice empty)
        ≡ map (λ key. (key, value_or 0 (last_value key twice))) (map key_of twice))
    × ((q : Bytes) → get (collect twice empty) q ≡ last_value q twice)
all-collect_example = all-collect 0 twice
