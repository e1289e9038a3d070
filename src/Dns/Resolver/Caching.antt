-- ===== src/Dns/Resolver/Caching.antt =====
-- What the cache does to the answers of `Resolve`.
use enimul.Common.{true, false, Option, none, some, ◌≡◌, refl, Bytes}
use enimul.Common.Int.{ℤ}
use enimul.Outcome.{ok}
use enimul.Modes.{DnsMode}
use enimul.Dst.{Dst}
use enimul.Dns.Resolver.{Resolver, look_up, stores, do_resolve, resolve}

-- Where `Resolve` has looked a name up and stored the destination, it answers the name with that
-- destination from the cache, in every DNS mode and not only in that of the look-up, makes no
-- exchange and leaves the cache as it is; the cache must have a value that was just added.
pub resolve-resolve :
    {S : Type 0} (r : Resolver S) (s : S) (domain : Bytes) (mode other : DnsMode)
    (ttl other_ttl : ℤ) (dst : Option Dst)
    → ((t : S) (k : Bytes) (v : Option Dst) (life : ℤ) → r.get (r.add t k v life) k ≡ some v)
    → r.has_cache ≡ true
    → stores r ttl ≡ true
    → r.get s domain ≡ none
    → look_up r domain mode ≡ ok dst
    → (resolve r s domain mode ttl ≡ (ok (dst, false), r.add s domain dst ttl))
      × (resolve r (resolve r s domain mode ttl).1 domain other other_ttl
          ≡ (ok (dst, true), (resolve r s domain mode ttl).1))
unfolding resolve do_resolve
resolve-resolve r s domain mode other ttl other_ttl dst law has kept missing found =
    let first : resolve r s domain mode ttl ≡ (ok (dst, false), r.add s domain dst ttl) =
      rw (has, resolve) (rw (missing, resolve) (rw (found, kept, resolve, do_resolve) refl)) in
    (first, rw first (rw (has, resolve) (rw (law s domain dst ttl) refl)))
