-- ===== src/AddrTrie/Ip/Routes.antt =====
-- The tries as routing tables: `Find` is the longest-prefix match over the patterns inserted.
use mathlib.Core.Path.{fun_ext, subst}
use enimul.Common.{
  ℕ, Bool, true, false, Option, none, some, List, [], ◌∷◌, ◌≡◌, refl, sym, ap, ◌∙◌, inl, inr,
  if◌then◌else◌, Bool-cases, Bytes, bytes_eq, note, best, note-none, note_written,
}
use enimul.Common.Result.{Result, ok, err, ◌>>=◌, >>=-eq-ok, ok_injective}
use enimul.Netip.{Addr, v4, as16, Parsers}
use enimul.AddrTrie.BitTrie.{
  BitNode, node, set_value, insert_loop, find_from, get_bit32, get_bit128,
}
use enimul.AddrTrie.BitTrie.Entries.{
  BitPath, path_from, path_eq, entry, IsNode, insert_loop-IsNode, entry-insert_loop,
}
use enimul.AddrTrie.BitTrie.Longest.{find_from-best}
use enimul.AddrTrie.Ip.{
  star, parse_ipv4_or_cidr, parse_ipv6_or_cidr, insert_ipv4, insert_ipv6, new_trie, find_ipv4,
  find_ipv6,
}

-- The bits that a pattern fixes: none for "*", else those of its address up to the mask's length.
abbrev pub pattern_path :
    {Key : Type 0} → (Bytes → Result (Key × ℕ)) → (Key → ℕ → ℕ) → Bytes → Result BitPath
pattern_path parse bit s =
    if bytes_eq s star then ok [] else (parse s >>= λ r. ok (path_from (bit r.0) 0 r.1))

abbrev pub path_ipv4 : Parsers → Bytes → Result BitPath
path_ipv4 np = pattern_path (parse_ipv4_or_cidr np) get_bit32

abbrev pub path_ipv6 : Parsers → Bytes → Result BitPath
path_ipv6 np = pattern_path (parse_ipv6_or_cidr np) get_bit128

abbrev matches : Result BitPath → BitPath → Bool
matches (ok p) q = path_eq p q
matches (err e) q = false

module _ {ℓ} {T : Type ℓ} where
  -- A run of insertions, which stops at the first error.
  abbrev pub insert_all :
      (BitNode T → Bytes → T → Result (BitNode T))
      → List (Bytes × T)
      → BitNode T
      → Result (BitNode T)
  insert_all insert [] t = ok t
  insert_all insert ((s, v) ∷ es) t = insert t s v >>= insert_all insert es

  -- The value of the last pattern of the list that fixes just the bits `q`.
  unfoldable pub latest : (Bytes → Result BitPath) → List (Bytes × T) → BitPath → Option T
  unfolding path_eq
  latest path [] q = none
  latest path ((s, v) ∷ es) q =
      note (latest path es q) (if matches (path s) q then some v else none)

  -- The longest-prefix match of the address `q` of `width` bits, over the list of patterns.
  unfoldable pub longest_match :
      (Bytes → Result BitPath) → List (Bytes × T) → BitPath → ℕ → Option T
  unfolding latest best
  longest_match path es q width = best (latest path es) q width

  set_value-IsNode : (t : BitNode T) (v : T) → IsNode t → IsNode (set_value v t)
  set_value-IsNode BitNode.nil v h = elim h [ ]
  set_value-IsNode (node l r x) v h = tt

  entry-set_value :
      (t : BitNode T) (v : T) (q : BitPath)
      → IsNode t
      → entry (set_value v t) q ≡ (if path_eq [] q then some v else entry t q)
  unfolding entry path_eq
  entry-set_value BitNode.nil v q h = elim h [ ]
  entry-set_value (node l r x) v [] h = refl
  entry-set_value (node l r x) v (b ∷ q) h = refl

  -- The values at the path of a pattern, over those that stood there.
  abbrev written : Result BitPath → T → (BitPath → Option T) → BitPath → Option T
  written path v f q = if matches path q then some v else f q

  abbrev insert_with :
      {Key : Type 0}
      → (Bytes → Result (Key × ℕ))
      → (Key → ℕ → ℕ)
      → BitNode T
      → Bytes
      → T
      → Result (BitNode T)
  insert_with parse bit root s v =
      if bytes_eq s star
      then ok (set_value v root)
      else (parse s >>= λ r. ok (insert_loop (bit r.0) r.1 0 v root))

  -- An insertion that succeeds writes the entry that the pattern names, and no other.
  insert_with-entry :
      {Key : Type 0} (parse : Bytes → Result (Key × ℕ)) (bit : Key → ℕ → ℕ) (t t' : BitNode T)
      (s : Bytes) (v : T)
      → IsNode t
      → insert_with parse bit t s v ≡ ok t'
      → IsNode t' × ((q : BitPath) → entry t' q ≡ written (pattern_path parse bit s) v (entry t) q)
  insert_with-entry parse bit t t' s v h e = elim (Bool-cases (bytes_eq s star)) [
    | inl y ↦
        let same = ok_injective (rw y at e) in
        rw y (
          subst IsNode same (set_value-IsNode t v h),
          λ q. ap (λ u. entry u q) (sym same) ∙ entry-set_value t v q h,
        )
    | inr y ↦
        let (r, parsed, run) = >>=-eq-ok (parse s) _ (rw y at e) in
        let same = ok_injective run in
        rw (y, parsed)
          (
            subst IsNode same (insert_loop-IsNode (bit r.0) r.1 0 v t h),
            λ q. ap (λ u. entry u q) (sym same) ∙ entry-insert_loop (bit r.0) r.1 0 v t q h,
          )
  ]

  insert_all-entry :
      {Key : Type 0} (parse : Bytes → Result (Key × ℕ)) (bit : Key → ℕ → ℕ) (es : List (Bytes × T))
      (t t' : BitNode T)
      → IsNode t
      → insert_all (insert_with parse bit) es t ≡ ok t'
      → IsNode t'
        × ((q : BitPath) → entry t' q ≡ note (latest (pattern_path parse bit) es q) (entry t q))
  unfolding latest
  insert_all-entry parse bit [] t t' h e =
      (subst IsNode (ok_injective e) h, λ q. ap (λ u. entry u q) (sym (ok_injective e)))
  insert_all-entry parse bit ((s, v) ∷ es) t t' h e =
      let (u, first, rest) = >>=-eq-ok (insert_with parse bit t s v) _ e in
      let (node_u, entries_u) = insert_with-entry parse bit t u s v h first in
      let (node_t', entries) = insert_all-entry parse bit es u t' node_u rest in
      (
        node_t',
        λ q.
            entries q
            ∙ ap (note (latest (pattern_path parse bit) es q)) (entries_u q)
            ∙ note_written (latest (pattern_path parse bit) es q)
                (matches (pattern_path parse bit s) q) v (entry t q),
      )

  entry-new_trie : (q : BitPath) → entry (new_trie {T = T}) q ≡ none
  unfolding entry
  entry-new_trie [] = refl
  entry-new_trie (true ∷ q) = refl
  entry-new_trie (false ∷ q) = refl

  find_from-longest_match :
      {Key : Type 0} (parse : Bytes → Result (Key × ℕ)) (bit : Key → ℕ → ℕ) (es : List (Bytes × T))
      (t : BitNode T) (key : Key) (n : ℕ)
      → insert_all (insert_with parse bit) es new_trie ≡ ok t
      → find_from (bit key) n t
        ≡ longest_match (pattern_path parse bit) es (path_from (bit key) 0 n) n
  unfolding longest_match
  find_from-longest_match parse bit es t key n e =
      let (is_node, entries) = insert_all-entry parse bit es new_trie t tt e in
      find_from-best (bit key) n t is_node
      ∙ ap (λ f. best f (path_from (bit key) 0 n) n)
          (fun_ext (λ q.
            entries q
            ∙ ap (note (latest (pattern_path parse bit) es q)) (entry-new_trie q)
            ∙ note-none (latest (pattern_path parse bit) es q)))

  -- After any run of insertions that all succeed, `IPv4Trie.Find` at an IPv4 address answers the
  -- value of the pattern with the longest mask that covers the address, and of the last such
  -- pattern inserted, or none where no pattern covers it; it does not panic.
  pub find_ipv4-longest_match :
      (np : Parsers) (es : List (Bytes × T)) (t : BitNode T) (a : ℕ)
      → insert_all (insert_ipv4 np) es new_trie ≡ ok t
      → find_ipv4 t (v4 a)
        ≡ some (longest_match (path_ipv4 np) es (path_from (get_bit32 a) 0 32) 32)
  unfolding insert_ipv4 find_ipv4
  find_ipv4-longest_match np es t a e =
      ap some (find_from-longest_match (parse_ipv4_or_cidr np) get_bit32 es t a 32 e)

  -- After any run of insertions that all succeed, `IPv6Trie.Find` answers for every address the
  -- value of the pattern with the longest mask that covers its 16-byte form, and of the last such
  -- pattern inserted, or none where no pattern covers it.
  pub find_ipv6-longest_match :
      (np : Parsers) (es : List (Bytes × T)) (t : BitNode T) (a : Addr)
      → insert_all (insert_ipv6 np) es new_trie ≡ ok t
      → find_ipv6 t a ≡ longest_match (path_ipv6 np) es (path_from (get_bit128 (as16 a)) 0 128) 128
  unfolding insert_ipv6 find_ipv6
  find_ipv6-longest_match np es t a e =
      find_from-longest_match (parse_ipv6_or_cidr np) get_bit128 es t (as16 a) 128 e
