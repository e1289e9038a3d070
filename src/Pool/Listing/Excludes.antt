-- ===== src/Pool/Listing/Excludes.antt =====
-- What the excluded items of `parseIPList` keep out, said of the texts themselves.
use enimul.Common.{
  Bool, true, false, ◌||◌, Option, none, some, List, [], ◌∷◌, ◌++◌, Bytes, ◌≡◌, ◌≢◌, refl, inl, inr,
  arith, sym, subst, Option-cases,
}
use enimul.Outcome.{ok, >>=-eq-ok}
use enimul.Netip.{Addr, invalid, v4, v6, unmap, Prefix, contains, addr_eq}
use enimul.Fragment.Split.{All}
use enimul.Pattern.{expand_pattern}
use enimul.Pool.Listing.{
  Env, Excluded, exclude_one, exclude_each, exclude_all, any_addr, any_prefix, is_excluded,
}

-- An address is not the one that an item names, and not in the network that it names.
abbrev pub Misses : Option Addr → Option Prefix → Addr → Type 0
Misses (some a) p ip = ip ≢ unmap a
Misses none (some p) ip = contains p ip ≡ false
Misses none none ip = Unit

-- An address that every item of a pattern leaves in.
abbrev pub Avoids : Env → Addr → Bytes → Type 0
Avoids env ip pattern =
    (items : List Bytes) × (expand_pattern pattern ≡ ok items)
    × All (λ s. Misses (env.parsers.parse_addr s) (env.parsers.parse_prefix s) ip) items

addr_eq_refl : (a : Addr) → addr_eq a a ≡ true
addr_eq_refl invalid = refl
addr_eq_refl (v4 a) = ground arith
addr_eq_refl (v6 hi lo) = ground arith

addr_eq-false : (a b : Addr) → addr_eq a b ≡ false → a ≢ b
addr_eq-false a b h same = ground (arith, h, subst (λ c. addr_eq a c ≡ true) same (addr_eq_refl a))

or_false : (a b : Bool) → (a || b) ≡ false → (a ≡ false) × (b ≡ false)
or_false a b h = (ground arith, ground arith)

any_prefix-append :
    (ip : Addr) (ps : List Prefix) (p : Prefix)
    → any_prefix ip (ps ++ p ∷ []) ≡ false
    → (any_prefix ip ps ≡ false) × (contains p ip ≡ false)
unfolding any_prefix
any_prefix-append ip [] p h = (refl, (or_false (contains p ip) false h).0)
any_prefix-append ip (q ∷ ps) p h =
    let (here, later) = or_false (contains q ip) (any_prefix ip (ps ++ p ∷ [])) h in
    let (rest, last) = any_prefix-append ip ps p later in (ground (arith, here, rest), last)

module _ (env : Env) (ip : Addr) where
  abbrev Miss : Bytes → Type 0
  Miss s = Misses (env.parsers.parse_addr s) (env.parsers.parse_prefix s) ip

  exclude_one-Misses :
      (pattern s : Bytes) (ex ex' : Excluded)
      → exclude_one env pattern s ex ≡ ok ex'
      → is_excluded ex' ip ≡ false
      → Miss s × (is_excluded ex ip ≡ false)
  unfolding exclude_one is_excluded any_addr
  exclude_one-Misses pattern s ex ex' h free = elim (Option-cases (env.parsers.parse_addr s)) [
    | inr (a, y) ↦
        let same : record ex { addrs = unmap a ∷ ex.addrs } ≡ ex' = cc (rw (y, exclude_one) at h) in
        let kept = subst (λ x. is_excluded x ip ≡ false) (sym same) free in
        let (listed, networks) =
          or_false (addr_eq ip (unmap a) || any_addr ip ex.addrs) (any_prefix ip ex.prefixes)
            kept in
        let (this, others) = or_false (addr_eq ip (unmap a)) (any_addr ip ex.addrs) listed in
        (rw y (addr_eq-false ip (unmap a) this), ground (arith, others, networks))
    | inl y ↦ elim (Option-cases (env.parsers.parse_prefix s)) [
      | inr (p, z) ↦
          let same : record ex { prefixes = ex.prefixes ++ p ∷ [] } ≡ ex' =
            cc (rw (y, z, exclude_one) at h) in
          let kept = subst (λ x. is_excluded x ip ≡ false) (sym same) free in
          let (listed, networks) =
            or_false (any_addr ip ex.addrs) (any_prefix ip (ex.prefixes ++ p ∷ [])) kept in
          let (others, this) = any_prefix-append ip ex.prefixes p networks in
          (rw (y, z) this, ground (arith, listed, others))
      | inl z ↦ cc (rw (y, z, exclude_one) at h)
    ]
  ]

  exclude_each-Misses :
      (pattern : Bytes) (items : List Bytes) (ex ex' : Excluded)
      → exclude_each env pattern items ex ≡ ok ex'
      → is_excluded ex' ip ≡ false
      → All Miss items × (is_excluded ex ip ≡ false)
  unfolding exclude_each
  exclude_each-Misses pattern [] ex ex' h free =
      let same : ex ≡ ex' = cc in (tt, subst (λ x. is_excluded x ip ≡ false) (sym same) free)
  exclude_each-Misses pattern (s ∷ items) ex ex' h free =
      let (ex1, one, rest) = >>=-eq-ok (exclude_one env pattern s ex) _ h in
      let (missed, before) = exclude_each-Misses pattern items ex1 ex' rest free in
      let (this, first) = exclude_one-Misses pattern s ex ex1 one before in ((this, missed), first)

  exclude_all-Avoids :
      (patterns : List Bytes) (ex ex' : Excluded)
      → exclude_all env patterns ex ≡ ok ex'
      → is_excluded ex' ip ≡ false
      → All (Avoids env ip) patterns × (is_excluded ex ip ≡ false)
  unfolding exclude_all
  exclude_all-Avoids [] ex ex' h free =
      let same : ex ≡ ex' = cc in (tt, subst (λ x. is_excluded x ip ≡ false) (sym same) free)
  exclude_all-Avoids (pattern ∷ patterns) ex ex' h free =
      let (items, expanded, rest) = >>=-eq-ok (expand_pattern pattern) _ h in
      let (ex1, each, later) = >>=-eq-ok (exclude_each env pattern items ex) _ rest in
      let (avoided, before) = exclude_all-Avoids patterns ex1 ex' later free in
      let (missed, first) = exclude_each-Misses pattern items ex ex1 each before in
      (((items, expanded, missed), avoided), first)

-- The addresses that the exclusions leave in avoid every excluded pattern.
pub All-Avoids :
    (env : Env) (patterns : List Bytes) (ex ex' : Excluded) (ips : List Addr)
    → exclude_all env patterns ex ≡ ok ex'
    → All (λ ip. is_excluded ex' ip ≡ false) ips
    → All (λ ip. All (Avoids env ip) patterns) ips
All-Avoids env patterns ex ex' [] h free = tt
All-Avoids env patterns ex ex' (ip ∷ ips) h (here, there) = (
  (exclude_all-Avoids env ip patterns ex ex' h here).0,
  All-Avoids env patterns ex ex' ips h there,
)
