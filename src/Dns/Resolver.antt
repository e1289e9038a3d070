-- ===== src/Dns/Resolver.antt =====
-- internal/core/dns.go: `doResolve` and `Resolve` with the cache. The cache, a copy of
-- elastic/go-freelru, is a parameter; `resolveGroup`, which shares one run among callers at the
-- same time, is left out, since a single caller gets what its function returns.
pub mod Caching
use Prim.Native.String.{String}
use enimul.Common.{
  ℕ, Bool, true, false, not, ◌&&◌, Option, none, some, List, [], ◌∷◌, if◌then◌else◌, Bytes,
}
use enimul.Common.Int.{ℤ, pos, negsuc, ◌==ℤ◌}
use enimul.Common.Result.{Error, msg, op_error, Result, err}
use enimul.Outcome.{Outcome, ok, failed, panic, ◌>>=◌, ◌>>◌, guard}
use enimul.Netip.{Addr}
use enimul.Modes.{
  DnsMode, dns_unset, dns_prefer_ipv4, dns_prefer_ipv6, dns_ipv4_only, dns_ipv6_only,
  dns_multi_prefer_ipv4, dns_multi_prefer_ipv6, dns_multi_ipv4_only, dns_multi_ipv6_only,
}
use enimul.Dst.{Dst, new_single_dst, new_dst_from_addrs}
use enimul.Policy.{is_0, is_unset_int}
use enimul.Dns.{QType, type_a, type_aaaa, Response, resolve_single, resolve_multi}

-- `dnsResolver`: its cache with the state `S`, whether it has one, the exchange of a message for a
-- name, `net.IP.String` and `netip.AddrFromSlice`.
pub record Resolver (S : Type 0) : Type 0 where
  pub has_cache : Bool
  pub get : S → Bytes → Option (Option Dst)
  pub add : S → Bytes → Option Dst → ℤ → S
  pub exchange : Bytes → Option QType → Result Response
  pub ip_text : Option Bytes → Bytes
  pub addr_from_slice : Bytes → Option Addr

abbrev lift : {A : Type 0} → Result A → Outcome A
lift (err e) = failed e
lift (Result.ok a) = ok a

-- The question of the first message: none in the unset mode.
unfoldable pub first_question : DnsMode → Option QType
first_question dns_unset = none
first_question dns_prefer_ipv4 = some type_a
first_question dns_ipv4_only = some type_a
first_question dns_multi_prefer_ipv4 = some type_a
first_question dns_multi_ipv4_only = some type_a
first_question dns_prefer_ipv6 = some type_aaaa
first_question dns_ipv6_only = some type_aaaa
first_question dns_multi_prefer_ipv6 = some type_aaaa
first_question dns_multi_ipv6_only = some type_aaaa

-- The loop of `NewDstFromIPs`.
unfoldable pub addrs_from_ips : (Bytes → Option Addr) → List Bytes → Outcome (List Addr)
addrs_from_ips from_slice [] = ok []
addrs_from_ips from_slice (ip ∷ ips) = do
  addr ← elim (from_slice ip) [ some a ↦ ok a | none ↦ panic ]
  addrs ← addrs_from_ips from_slice ips
  ok (addr ∷ addrs)

module _ {S : Type 0} where
  -- The switch of `doResolve` on the mode; `none` is a nil destination.
  unfoldable pub choose_dst : Resolver S → Bytes → DnsMode → Response → Outcome (Option Dst)
  unfolding resolve_single resolve_multi addrs_from_ips new_single_dst new_dst_from_addrs
  choose_dst r domain mode resp =
      let again : QType → Result Response = λ qtype. r.exchange domain (some qtype) in
      let single : Outcome (Option Dst) = (do
        ip ← lift (resolve_single again mode resp.answer)
        ok (some (new_single_dst (r.ip_text ip)))) in
      let multi : Outcome (Option Dst) = (do
        ips ← lift (resolve_multi again mode resp.answer)
        addrs ← addrs_from_ips r.addr_from_slice ips
        ok (some (new_dst_from_addrs addrs))) in
      elim mode [
        | dns_unset ↦ ok none
        | dns_prefer_ipv4 ↦ single
        | dns_prefer_ipv6 ↦ single
        | dns_ipv4_only ↦ single
        | dns_ipv6_only ↦ single
        | dns_multi_prefer_ipv4 ↦ multi
        | dns_multi_prefer_ipv6 ↦ multi
        | dns_multi_ipv4_only ↦ multi
        | dns_multi_ipv6_only ↦ multi
      ]

  unfoldable pub look_up : Resolver S → Bytes → DnsMode → Outcome (Option Dst)
  unfolding choose_dst first_question
  look_up r domain mode = elim (r.exchange domain (first_question mode)) [
    | err e ↦ failed (op_error "dns exchange" e)
    | Result.ok resp ↦ guard resp.success (msg "bad rcode") >> choose_dst r domain mode resp
  ]

  abbrev pub stores : Resolver S → ℤ → Bool
  stores r ttl = not (is_0 ttl) && not (is_unset_int ttl) && r.has_cache

  -- `doResolve`
  unfoldable pub do_resolve : Resolver S → S → Bytes → DnsMode → ℤ → Outcome (Option Dst) × S
  unfolding look_up
  do_resolve r s domain mode ttl = elim (look_up r domain mode) [
    | ok dst ↦ (ok dst, if stores r ttl then r.add s domain dst ttl else s)
    | failed e ↦ (failed e, s)
    | panic ↦ (panic, s)
  ]

  abbrev uncached : Outcome (Option Dst) × S → Outcome (Option Dst × Bool) × S
  uncached (o, s) = (o >>= λ dst. ok (dst, false), s)

  -- `Resolve`: the destination, and whether it was cached.
  unfoldable pub resolve : Resolver S → S → Bytes → DnsMode → ℤ → Outcome (Option Dst × Bool) × S
  unfolding do_resolve
  resolve r s domain mode ttl = elim (if r.has_cache then r.get s domain else none) [
    | some dst ↦ (ok (dst, true), s)
    | none ↦ uncached (do_resolve r s domain mode ttl)
  ]
