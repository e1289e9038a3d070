-- ===== src/Jsonx/Members.antt =====
-- What a decoded object yields, in terms of its members.
use mathlib.Core.Path.{fun_ext}
use mathlib.Core.List.{append_assoc, append-nil}
use enimul.Common.{
  some, List, [], ◌∷◌, ◌++◌, map, ◌≡◌, refl, ap, ◌∙◌, sym, arith, if◌then◌else◌, Bytes, bytes_eq,
  bytes_eq_iff, note, note_written, note-none, length, length-map,
}
use enimul.Jsonx.OrderedMap.{
  OrderedMap, get_value, set_value, get, len, empty, collect, value_or, all, last_value,
}

abbrev pub key_of {ℓ} : {T : Type ℓ} → Bytes × T → Bytes
key_of (k, v) = k

module _ {ℓ} {T : Type ℓ} where
  get_value-set_value :
      (q key : Bytes) (v : T) (vs : List (Bytes × T))
      → get_value q (set_value key v vs) ≡ (if bytes_eq key q then some v else get_value q vs)
  unfolding get_value set_value
  get_value-set_value q key v [] = refl
  get_value-set_value q key v ((k, w) ∷ vs) = ground (
    arith,
    get_value-set_value q key v vs,
    bytes_eq_iff k key,
    bytes_eq_iff key q,
    bytes_eq_iff k q,
  )

  get_value-collect :
      (q : Bytes) (ms : List (Bytes × T)) (m : OrderedMap T)
      → get_value q (collect ms m).values ≡ note (last_value q ms) (get_value q m.values)
  unfolding collect last_value
  get_value-collect q [] m = refl
  get_value-collect q ((key, v) ∷ ms) m =
      get_value-collect q ms _
      ∙ ap (note (last_value q ms)) (get_value-set_value q key v m.values)
      ∙ note_written (last_value q ms) (bytes_eq key q) v _

  keys-collect :
      (ms : List (Bytes × T)) (m : OrderedMap T) → (collect ms m).keys ≡ m.keys ++ map key_of ms
  unfolding collect
  keys-collect [] m = sym (append-nil m.keys)
  keys-collect ((key, v) ∷ ms) m =
      keys-collect ms _ ∙ append_assoc m.keys (key ∷ []) (map key_of ms)

  -- Decoding an object keeps a key for each member, in order. `All` yields for each of them the value
  -- of the last member with its key, and `Get` answers that value for a key, or none where no member
  -- has it.
  pub all-collect :
      (zero_value : T) (ms : List (Bytes × T))
      → (len (collect ms empty) ≡ length ms)
        × (all zero_value (collect ms empty)
            ≡ map (λ key. (key, value_or zero_value (last_value key ms))) (map key_of ms))
        × ((q : Bytes) → get (collect ms empty) q ≡ last_value q ms)
  unfolding all len get
  all-collect zero_value ms =
      let value : (q : Bytes) → get_value q (collect ms empty).values ≡ last_value q ms =
        λ q. get_value-collect q ms empty ∙ note-none (last_value q ms) in
      (
        ap length (keys-collect ms empty) ∙ length-map key_of ms,
        rw (keys-collect ms empty) (
            ap (λ f. map (λ key. (key, value_or zero_value (f key))) (map key_of ms))
              (fun_ext value)),
        value,
      )
