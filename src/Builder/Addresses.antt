-- ===== src/Builder/Addresses.antt =====
-- The loops of `Builder.Merge` over addresses and networks.
use enimul.Common.{
  List, [], ◌∷◌, ◌++◌, map, ◌≡◌, refl, ap, ◌∙◌, inl, inr, if◌then◌else◌, Bool-cases, Bytes,
  contains_byte, arith,
}
use enimul.Common.Result
use enimul.Common.Result.{Result, err}
use enimul.Outcome.{ok, ok_injective, >>=-eq-ok}
use enimul.Netip.{Parsers}
use enimul.AddrTrie.BitTrie.{BitNode}
use enimul.AddrTrie.Ip.{insert_ipv4, insert_ipv6}
use enimul.AddrTrie.Ip.Routes.{insert_all}
use enimul.Pattern.{split, expand_pattern}
use enimul.Policy.{Policy, PolicyOptions}
use enimul.Builder.{policy_of, of_result, IpTables, insert_ip, insert_ips, insert_elems, merge_ips}
use enimul.Builder.Tables.{rows_of, table}

-- The rows of the two address families, by whether the text has a colon.
unfoldable pub rows_v4 : List (Bytes × Policy) → List (Bytes × Policy)
unfolding contains_byte
rows_v4 [] = []
rows_v4 ((s, v) ∷ es) =
    let rest = rows_v4 es in if contains_byte b':' s then rest else (s, v) ∷ rest

unfoldable pub rows_v6 : List (Bytes × Policy) → List (Bytes × Policy)
unfolding contains_byte
rows_v6 [] = []
rows_v6 ((s, v) ∷ es) =
    let rest = rows_v6 es in if contains_byte b':' s then (s, v) ∷ rest else rest

rows_v4-append : (xs ys : List (Bytes × Policy)) → rows_v4 (xs ++ ys) ≡ rows_v4 xs ++ rows_v4 ys
unfolding rows_v4
rows_v4-append [] ys = refl
rows_v4-append ((s, v) ∷ xs) ys = ground (arith, rows_v4-append xs ys)

rows_v6-append : (xs ys : List (Bytes × Policy)) → rows_v6 (xs ++ ys) ≡ rows_v6 xs ++ rows_v6 ys
unfolding rows_v6
rows_v6-append [] ys = refl
rows_v6-append ((s, v) ∷ xs) ys = ground (arith, rows_v6-append xs ys)

insert_all-append {ℓ} :
    {T : Type ℓ} (insert : BitNode T → Bytes → T → Result (BitNode T)) (xs ys : List (Bytes × T))
    (t u w : BitNode T)
    → insert_all insert xs t ≡ Result.ok u
    → insert_all insert ys u ≡ Result.ok w
    → insert_all insert (xs ++ ys) t ≡ Result.ok w
insert_all-append insert [] ys t u w h k = ap (insert_all insert ys) (Result.ok_injective h) ∙ k
insert_all-append insert ((s, v) ∷ xs) ys t u w h k =
    let (t1, first, rest) = Result.>>=-eq-ok (insert t s v) _ h in
    rw first (insert_all-append insert xs ys t1 u w rest k)

of_result_ok {ℓ} : {A : Type ℓ} (r : Result A) {a : A} → of_result r ≡ ok a → r ≡ Result.ok a
of_result_ok (Result.err e) h = cc
of_result_ok (Result.ok b) h = cc

module _ (np : Parsers) where
  -- Each row went into the trie of its family, with no error.
  abbrev pub Inserted : List (Bytes × Policy) → IpTables → IpTables → Type 0
  Inserted es t t' =
      (insert_all (insert_ipv4 np) (rows_v4 es) t.ipv4 ≡ Result.ok t'.ipv4)
      × (insert_all (insert_ipv6 np) (rows_v6 es) t.ipv6 ≡ Result.ok t'.ipv6)

  pub Inserted-append :
      (xs ys : List (Bytes × Policy)) (t u w : IpTables)
      → Inserted xs t u
      → Inserted ys u w
      → Inserted (xs ++ ys) t w
  Inserted-append xs ys t u w (h4, h6) (k4, k6) = (
    rw (rows_v4-append xs ys) (insert_all-append (insert_ipv4 np) _ _ t.ipv4 u.ipv4 w.ipv4 h4 k4),
    rw (rows_v6-append xs ys) (insert_all-append (insert_ipv6 np) _ _ t.ipv6 u.ipv6 w.ipv6 h6 k6),
  )

  pub Inserted-refl : (t t' : IpTables) → t ≡ t' → Inserted [] t t'
  unfolding rows_v4 rows_v6
  Inserted-refl t t' e = (ap (λ u. Result.ok u.ipv4) e, ap (λ u. Result.ok u.ipv6) e)

  insert_ip-Inserted :
      (s : Bytes) (v : Policy) (t t' : IpTables)
      → insert_ip np s v t ≡ ok t'
      → Inserted ((s, v) ∷ []) t t'
  unfolding insert_ip rows_v4 rows_v6
  insert_ip-Inserted s v t t' h = elim (Bool-cases (contains_byte b':' s)) [
    | inl y ↦
        let (u, first, rest) =
          >>=-eq-ok (of_result (insert_ipv6 np t.ipv6 s v)) _ (rw (y, insert_ip) at h) in
        let same = ok_injective rest in
        rw (y, of_result_ok (insert_ipv6 np t.ipv6 s v) first)
          (ap (λ w. Result.ok w.ipv4) same, ap (λ w. Result.ok w.ipv6) same)
    | inr y ↦
        let (u, first, rest) =
          >>=-eq-ok (of_result (insert_ipv4 np t.ipv4 s v)) _ (rw (y, insert_ip) at h) in
        let same = ok_injective rest in
        rw (y, of_result_ok (insert_ipv4 np t.ipv4 s v) first)
          (ap (λ w. Result.ok w.ipv4) same, ap (λ w. Result.ok w.ipv6) same)
  ]

  insert_ips-Inserted :
      (ss : List Bytes) (v : Policy) (t t' : IpTables)
      → insert_ips np ss v t ≡ ok t'
      → Inserted (map (λ s. (s, v)) ss) t t'
  unfolding insert_ips rows_v4 rows_v6
  insert_ips-Inserted [] v t t' h = Inserted-refl t t' (ok_injective h)
  insert_ips-Inserted (s ∷ ss) v t t' h =
      let (u, first, rest) = >>=-eq-ok (insert_ip np s v t) _ h in
      Inserted-append ((s, v) ∷ []) (map (λ s. (s, v)) ss) t u t' (insert_ip-Inserted s v t u first)
        (insert_ips-Inserted ss v u t' rest)

  insert_elems-Inserted :
      (elems : List Bytes) (v : Policy) (t t' : IpTables)
      → insert_elems np elems v t ≡ ok t'
      → (es : List (Bytes × Policy)) × (rows_of elems v ≡ ok es) × Inserted es t t'
  unfolding insert_elems rows_of rows_v4 rows_v6
  insert_elems-Inserted [] v t t' h = ([], refl, Inserted-refl t t' (ok_injective h))
  insert_elems-Inserted (e ∷ elems) v t t' h =
      let (ps, first, rest) = >>=-eq-ok (expand_pattern e) _ h in
      let (u, added, others) = >>=-eq-ok (insert_ips np ps v t) _ rest in
      let (rows, more, done) = insert_elems-Inserted elems v u t' others in
      (
        map (λ p. (p, v)) ps ++ rows,
        rw (first, rows_of) (rw more refl),
        Inserted-append (map (λ p. (p, v)) ps) rows t u t' (insert_ips-Inserted ps v t u added)
            done,
      )

  pub merge_ips-Inserted :
      (entries : List (Bytes × PolicyOptions)) (t t' : IpTables)
      → merge_ips np entries t ≡ ok t'
      → (es : List (Bytes × Policy)) × (table policy_of entries ≡ ok es) × Inserted es t t'
  unfolding merge_ips table rows_v4 rows_v6
  merge_ips-Inserted [] t t' h = ([], refl, Inserted-refl t t' (ok_injective h))
  merge_ips-Inserted ((patterns, o) ∷ rest) t t' h =
      let (v, valid, from_value) = >>=-eq-ok (policy_of o) _ h in
      let (u, added, others) = >>=-eq-ok (insert_elems np (split patterns b';') v t) _ from_value in
      let (rows, first, here) = insert_elems-Inserted (split patterns b';') v t u added in
      let (more, behind, done) = merge_ips-Inserted rest u t' others in
      (
        rows ++ more,
        rw (valid, table) (rw first (rw behind refl)),
        Inserted-append rows more t u t' here done,
      )
