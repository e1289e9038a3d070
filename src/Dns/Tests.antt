-- ===== src/Dns/Tests.antt =====
-- Runs of the resolver's choice and of the exchange.
use mathlib.Core.List.{flatten}
use enimul.Common.{
  ◌≡◌, refl, true, false, Option, none, some, List, [], ◌∷◌, inl, inr, arith, Bytes,
}
use enimul.Common.Result.{Result, ok, err, msg}
use enimul.Modes.{dns_prefer_ipv4, dns_ipv4_only, dns_multi_prefer_ipv4}
use enimul.Dns.{
  Rr, a_record, aaaa_record, other_record, QType, type_a, type_aaaa, Response, resolve_single,
  resolve_multi,
}
use enimul.Dns.Resolver.{Resolver, look_up, resolve}
use enimul.Dns.Resolver.Caching.{resolve-resolve}
use enimul.Outcome.{Outcome}
use enimul.Common.Int.{pos}
use enimul.Dst.{Dst, new_single_dst}
use enimul.Dns.Choice.{
  multi_prefer_ipv4, resolve_multi-flatten, Chosen, prefer_ipv4, resolve_single-Chosen,
}
use enimul.Dns.Exchange.{Reply, Read, Request, response, exchange_loop}
use enimul.Dns.Exchange.Genuine.{Genuine, exchange_loop-Genuine}

abbrev loopback6 : Bytes
loopback6 = 0 ∷ 0 ∷ 0 ∷ 0 ∷ 0 ∷ 0 ∷ 0 ∷ 0 ∷ 0 ∷ 0 ∷ 0 ∷ 0 ∷ 0 ∷ 0 ∷ 0 ∷ 1 ∷ []

-- A server that has only an IPv6 address.
abbrev server : QType → Result Response
server type_a = ok (record { success = true; answer = other_record ∷ [] })
server type_aaaa =
    ok (record { success = true; answer = other_record ∷ aaaa_record loopback6 ∷ [] })

resolve_single-Chosen_example :
    (ip : Bytes) × (some loopback6 ≡ some ip) × Chosen server dns_prefer_ipv4 (other_record ∷ []) ip
unfolding resolve_single
resolve_single-Chosen_example =
    resolve_single-Chosen server dns_prefer_ipv4 (other_record ∷ []) (some loopback6) prefer_ipv4
      refl

-- A response with both families.
abbrev mixed : List Rr
mixed = a_record (1 ∷ []) ∷ aaaa_record loopback6 ∷ other_record ∷ a_record (2 ∷ []) ∷ []

resolve_multi-flatten_example :
    resolve_multi server dns_multi_prefer_ipv4 mixed ≡ ok ((1 ∷ []) ∷ (2 ∷ []) ∷ [])
unfolding flatten
resolve_multi-flatten_example = resolve_multi-flatten server mixed multi_prefer_ipv4

-- A forged reply, then the genuine one; the request waits for 300 and drops what comes before 20.
abbrev request : Request
request = record { id = 7; has_subnet = false; wait_timeout = 300; min_rtt = 20 }

abbrev forged : Reply
forged = record { id = 8; record_count = 5; has_subnet = false }

abbrev reads : List Read
reads =
    record { reply = some forged; elapsed = 30 }
    ∷ record {
      reply = some (record { id = 7; record_count = 1; has_subnet = false });
      elapsed = 60;
    }
    ∷ record { reply = none; elapsed = 300 }
    ∷ []

exchange_loop-Genuine_example : Genuine request (exchange_loop request none reads)
exchange_loop-Genuine_example =
    exchange_loop-Genuine request reads
      (inr (inr (omega arith)), (inr (inr (omega arith)), (inl refl, tt)))

exchange_loop_run :
    exchange_loop request none reads
    ≡ response (record { id = 7; record_count = 1; has_subnet = false })
unfolding exchange_loop
exchange_loop_run = refl

-- A reply of another id that is read too late is the response.
exchange_loop_late :
    exchange_loop request none (record { reply = some forged; elapsed = 301 } ∷ [])
    ≡ response forged
unfolding exchange_loop
exchange_loop_late = refl

-- A cache that holds one value.
abbrev Slot : Type 0
Slot = Option (Option Dst)

abbrev resolver : Resolver Slot
resolver = record {
  has_cache = true;
  get = λ s domain. s;
  add = λ s domain dst life. some dst;
  exchange = λ domain question. elim question [ some qtype ↦ server qtype | none ↦ err (msg "") ];
  ip_text = λ ip. elim ip [ some bytes ↦ bytes | none ↦ [] ];
  addr_from_slice = λ bytes. none;
}

abbrev domain : Bytes
domain = b'a' ∷ b'.' ∷ b'b' ∷ []

resolve-resolve_example :
    (resolve resolver none domain dns_prefer_ipv4 (pos 60) ≡ (
      Outcome.ok (some (new_single_dst loopback6), false),
      some (some (new_single_dst loopback6)),
    ))
    × (resolve resolver
          (resolve resolver none domain dns_prefer_ipv4 (pos 60)).1
          domain
          dns_ipv4_only
          (pos 60)
        ≡ (
          Outcome.ok (some (new_single_dst loopback6), true),
          (resolve resolver none domain dns_prefer_ipv4 (pos 60)).1,
        ))
unfolding look_up
resolve-resolve_example =
    resolve-resolve resolver none domain dns_prefer_ipv4 dns_ipv4_only (pos 60) (pos 60)
      (some (new_single_dst loopback6)) (λ t k v life. refl) refl refl refl refl
