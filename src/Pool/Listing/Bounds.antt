-- ===== src/Pool/Listing/Bounds.antt =====
-- What `parseIPList` promises: no panic, at most `maxIPPoolSize` addresses, none of them excluded.
use Prim.Native.String.{String}
use enimul.Common.{
  ℕ, zero, suc, ◌+◌, ◌^◌, ◌≤◌, ◌<◌, true, false, not, List, [], ◌∷◌, ◌++◌, leb, Bytes, length, ◌≡◌,
  refl, inl, inr, arith, Bool-cases, Option-cases, length-append,
}
use enimul.Outcome.{Outcome, ok, ◌>>=◌}
use enimul.Outcome.Ensures.{Ensures, returns, fails, Ensures-bind, Ensures-guard, Ensures-weaken}
use enimul.Netip.{Addr, invalid, v4, v6, unmap, Prefix, value6, next, is_valid, contains}
use enimul.Fragment.Split.{All}
use enimul.Pattern.{expand_pattern}
use enimul.Pool.Listing.Excludes.{Avoids, All-Avoids}
use enimul.Pool.Listing.{
  Env, max_ip_pool_size, Excluded, exclude_one, exclude_each, exclude_all, is_excluded,
  append_checked, addresses_left, cidr_loop, lookup_loop, valid_or_none, list_one, list_each,
  list_all, parse_ip_list,
}

-- `Addr.Next` comes nearer to the end of the family.
addresses_left-next :
    (a : Addr) → is_valid (next a) ≡ true → addresses_left (next a) < addresses_left a
unfolding next addresses_left
addresses_left-next invalid h = cc
addresses_left-next (v4 a) h = elim (Bool-cases (leb (2 ^ 32) (a + 1))) [
  | inl y ↦ cc (rw (y, next) at h)
  | inr y ↦ rw (y, next, addresses_left) (ground arith)
]
addresses_left-next (v6 hi lo) h = elim (Bool-cases (leb (2 ^ 128) (value6 hi lo + 1))) [
  | inl y ↦ cc (rw (y, next) at h)
  | inr y ↦ rw (y, next, addresses_left) (ground arith)
]

-- The size and the exclusions.
abbrev pub Allowed : Excluded → List Addr → Type 0
Allowed ex ips = (length ips ≤ max_ip_pool_size) × All (λ a. is_excluded ex a ≡ false) ips

All-append_one :
    (ex : Excluded) (ips : List Addr) (a : Addr)
    → All (λ a. is_excluded ex a ≡ false) ips
    → is_excluded ex a ≡ false
    → All (λ a. is_excluded ex a ≡ false) (ips ++ a ∷ [])
All-append_one ex [] a h k = (k, tt)
All-append_one ex (b ∷ ips) a (h, hs) k = (h, All-append_one ex ips a hs k)

-- One more address, where there is room.
append-Allowed :
    (ex : Excluded) (ips : List Addr) (a : Addr)
    → Allowed ex ips
    → leb max_ip_pool_size (length ips) ≡ false
    → is_excluded ex a ≡ false
    → Allowed ex (ips ++ a ∷ [])
append-Allowed ex ips a (room, free) below kept =
    (rw (length-append ips (a ∷ [])) (ground arith), All-append_one ex ips a free kept)

-- `expandPattern` does not panic on a pattern.
abbrev pub Expands : Bytes → Type 0
Expands pattern = (ss : List Bytes) × (expand_pattern pattern ≡ ok ss)

module _ (ex : Excluded) where
  append_checked-Allowed :
      (what : String) (a : Addr) (ips : List Addr)
      → Allowed ex ips
      → Ensures (λ (r : List Addr). Allowed ex r) (append_checked ex what a ips)
  unfolding append_checked
  append_checked-Allowed what a ips h = elim (Bool-cases (is_excluded ex a)) [
    | inl y ↦ rw (y, append_checked) (returns h)
    | inr y ↦ elim (Bool-cases (leb max_ip_pool_size (length ips))) [
      | inl z ↦ rw (y, z, append_checked) fails
      | inr z ↦ rw (y, z, append_checked) (returns (append-Allowed ex ips a h z y))
    ]
  ]

  cidr_loop-Allowed :
      (fuel : ℕ) (p : Prefix) (a : Addr) (ips : List Addr)
      → addresses_left a < fuel
      → Allowed ex ips
      → Ensures (λ (r : List Addr). Allowed ex r) (cidr_loop fuel ex p a ips)
  unfolding cidr_loop
  cidr_loop-Allowed zero p a ips h allowed = absurd (omega arith)
  cidr_loop-Allowed (suc fuel) p a ips h allowed = elim (Bool-cases (contains p a)) [
    | inr y ↦ rw (y, cidr_loop) (returns allowed)
    | inl y ↦
        rw (y, cidr_loop)
          (Ensures-bind (append_checked-Allowed "cidr exceeds max pool size" (unmap a) ips allowed)
            λ ips' allowed'. elim (Bool-cases (is_valid (next a))) [
              | inr w ↦ rw w (returns allowed')
              | inl w ↦ elim (Bool-cases (contains p (next a))) [
                | inr z ↦ rw (w, z) (returns allowed')
                | inl z ↦
                    let nearer = addresses_left-next a w in
                    rw (w, z) (cidr_loop-Allowed fuel p (next a) ips' (omega arith) allowed')
              ]
            ])
  ]

  lookup_loop-Allowed :
      (found ips : List Addr)
      → Allowed ex ips
      → Ensures (λ (r : List Addr). Allowed ex r) (lookup_loop ex found ips)
  unfolding lookup_loop
  lookup_loop-Allowed [] ips allowed = returns allowed
  lookup_loop-Allowed (a ∷ found) ips allowed = elim (Bool-cases (is_valid a)) [
    | inl y ↦
        rw (y, lookup_loop)
          (Ensures-bind
            (append_checked-Allowed "dns resolution exceeds max pool size" (unmap a) ips allowed)
            λ ips' allowed'. lookup_loop-Allowed found ips' allowed')
    | inr y ↦ rw (y, lookup_loop) (lookup_loop-Allowed found ips allowed)
  ]

  list_one-Allowed :
      (env : Env) (s : Bytes) (ips : List Addr)
      → Allowed ex ips
      → Ensures (λ (r : List Addr). Allowed ex r) (list_one env ex s ips)
  unfolding list_one
  list_one-Allowed env s ips allowed =
      Ensures-guard (not (leb max_ip_pool_size (length ips))) _ λ room.
        elim (Option-cases (valid_or_none (env.parsers.parse_addr s))) [
          | inr (a, y) ↦ elim (Bool-cases (is_excluded ex (unmap a))) [
            | inl z ↦ rw (y, z) (returns allowed)
            | inr z ↦ rw (y, z) (returns (append-Allowed ex ips (unmap a) allowed (ground arith) z))
          ]
          | inl y ↦ elim (Option-cases (env.parsers.parse_prefix s)) [
            | inr (p, z) ↦
                rw (y, z)
                  (cidr_loop-Allowed (suc (addresses_left p.addr)) p p.addr ips (omega arith)
                    allowed)
            | inl z ↦ elim (Option-cases (env.lookup_ip s)) [
              | inl w ↦ rw (y, z, w) fails
              | inr (found, w) ↦ rw (y, z, w) (lookup_loop-Allowed found ips allowed)
            ]
          ]
        ]

  list_each-Allowed :
      (env : Env) (ss : List Bytes) (ips : List Addr)
      → Allowed ex ips
      → Ensures (λ (r : List Addr). Allowed ex r) (list_each env ex ss ips)
  unfolding list_each
  list_each-Allowed env [] ips allowed = returns allowed
  list_each-Allowed env (s ∷ ss) ips allowed =
      Ensures-bind (list_one-Allowed env s ips allowed)
        λ ips' allowed'. list_each-Allowed env ss ips' allowed'

  list_all-Allowed :
      (env : Env) (patterns : List Bytes) (ips : List Addr)
      → All Expands patterns
      → Allowed ex ips
      → Ensures (λ (r : List Addr). Allowed ex r) (list_all env ex patterns ips)
  unfolding list_all
  list_all-Allowed env [] ips expands allowed = returns allowed
  list_all-Allowed env (pattern ∷ patterns) ips ((ss, e), es) allowed =
      rw (e, list_all)
        (Ensures-bind (list_each-Allowed env ss ips allowed)
          λ ips' allowed'. list_all-Allowed env patterns ips' es allowed')

exclude_one-Ensures :
    (env : Env) (pattern s : Bytes) (ex : Excluded)
    → Ensures (λ (r : Excluded). Unit {0}) (exclude_one env pattern s ex)
unfolding exclude_one
exclude_one-Ensures env pattern s ex = elim (Option-cases (env.parsers.parse_addr s)) [
  | inr (a, y) ↦ rw (y, exclude_one) (returns tt)
  | inl y ↦ elim (Option-cases (env.parsers.parse_prefix s)) [
    | inr (p, z) ↦ rw (y, z, exclude_one) (returns tt)
    | inl z ↦ rw (y, z, exclude_one) fails
  ]
]

exclude_each-Ensures :
    (env : Env) (pattern : Bytes) (ss : List Bytes) (ex : Excluded)
    → Ensures (λ (r : Excluded). Unit {0}) (exclude_each env pattern ss ex)
unfolding exclude_each
exclude_each-Ensures env pattern [] ex = returns tt
exclude_each-Ensures env pattern (s ∷ ss) ex =
    Ensures-bind (exclude_one-Ensures env pattern s ex)
      λ ex' _. exclude_each-Ensures env pattern ss ex'

exclude_all-Ensures :
    (env : Env) (patterns : List Bytes) (ex : Excluded)
    → All Expands patterns
    → Ensures (λ (r : Excluded). Unit {0}) (exclude_all env patterns ex)
unfolding exclude_all
exclude_all-Ensures env [] ex expands = returns tt
exclude_all-Ensures env (pattern ∷ patterns) ex ((ss, e), es) =
    rw (e, exclude_all)
      (Ensures-bind (exclude_each-Ensures env pattern ss ex)
        λ ex' _. exclude_all-Ensures env patterns ex' es)

-- The exclusions of the second step are those that the first one returned.
>>=-Allowed :
    {m : Outcome Excluded} (next_step : Excluded → Outcome (List Addr))
    → Ensures (λ (r : Excluded). Unit {0}) m
    → ((ex : Excluded) → Ensures (λ (ips : List Addr). Allowed ex ips) (next_step ex))
    → Ensures
        (λ (ips : List Addr). (ex : Excluded) × (m ≡ ok ex) × Allowed ex ips)
        (m >>= next_step)
>>=-Allowed next_step (returns {a} q) k =
    Ensures-weaken (k a) (λ (ips : List Addr) allowed. (a, refl, allowed))
>>=-Allowed next_step fails k = fails

-- `parseIPList` ends with no panic where `expandPattern` takes all the patterns, of the addresses and
-- of the excluded ones, also where a network reaches to the end of the address space. A list that it
-- returns has at most `maxIPPoolSize` addresses. Each of them is other than every address that an
-- item of an excluded pattern names, without its form in IPv6, and outside of every network that an
-- item names.
pub parse_ip_list-Allowed :
    (env : Env) (sources excluded : List Bytes)
    → All Expands sources
    → All Expands excluded
    → Ensures
        (λ (ips : List Addr).
          (length ips ≤ max_ip_pool_size) × All (λ ip. All (Avoids env ip) excluded) ips)
        (parse_ip_list env sources excluded)
unfolding parse_ip_list
parse_ip_list-Allowed env sources excluded hs he =
    let nothing : Excluded = record { addrs = []; prefixes = [] } in
    Ensures-weaken
      (>>=-Allowed (λ (ex : Excluded). list_all env ex sources [])
        (exclude_all-Ensures env excluded nothing he)
        λ ex. list_all-Allowed ex env sources [] hs (omega arith, tt))
      (λ (ips : List Addr) found.
        let (ex, run, (room, free)) = found in
        (room, All-Avoids env excluded nothing ex ips run free))
