-- ===== src/Dns.antt =====
-- internal/core/dns.go: the choice among the records of a response, and the exchange that waits for
-- the genuine response. The messages are those of github.com/miekg/dns, up to what is read of them.
pub mod Choice
pub mod Exchange
pub mod Resolver
mod Tests
use Prim.Native.String.{String}
use enimul.Common.{ℕ, Bool, true, false, Option, none, some, List, [], ◌∷◌, if◌then◌else◌, Bytes}
use enimul.Common.Result.{Error, msg, op_error, Result, ok, err, ◌>>=◌}
use enimul.Modes.{
  DnsMode, dns_unset, dns_prefer_ipv4, dns_prefer_ipv6, dns_ipv4_only, dns_ipv6_only,
  dns_multi_prefer_ipv4, dns_multi_prefer_ipv6, dns_multi_ipv4_only, dns_multi_ipv6_only,
}

-- A record of an answer: `dns.A`, `dns.AAAA` with its address, which is not nil in an answer that was
-- read off the wire, or another one.
pub data Rr : Type 0 where
  a_record aaaa_record : Bytes → Rr
  other_record : Rr

pub data QType : Type 0 where
  type_a type_aaaa : QType

-- A response: whether its code is a success, and its answer.
pub record Response : Type 0 where
  pub success : Bool
  pub answer : List Rr

-- `pickFirstARecord`
unfoldable pub pick_first_a_record : List Rr → Option Bytes
pick_first_a_record [] = none
pick_first_a_record (a_record ip ∷ rs) = some ip
pick_first_a_record (aaaa_record ip ∷ rs) = pick_first_a_record rs
pick_first_a_record (other_record ∷ rs) = pick_first_a_record rs

-- `pickFirstAAAARecord`
unfoldable pub pick_first_aaaa_record : List Rr → Option Bytes
pick_first_aaaa_record [] = none
pick_first_aaaa_record (a_record ip ∷ rs) = pick_first_aaaa_record rs
pick_first_aaaa_record (aaaa_record ip ∷ rs) = some ip
pick_first_aaaa_record (other_record ∷ rs) = pick_first_aaaa_record rs

-- The loop of `pickARecords`.
unfoldable pub a_records : List Rr → List Bytes
a_records [] = []
a_records (a_record ip ∷ rs) = ip ∷ a_records rs
a_records (aaaa_record ip ∷ rs) = a_records rs
a_records (other_record ∷ rs) = a_records rs

-- The loop of `pickAAAARecords`.
unfoldable pub aaaa_records : List Rr → List Bytes
aaaa_records [] = []
aaaa_records (a_record ip ∷ rs) = aaaa_records rs
aaaa_records (aaaa_record ip ∷ rs) = ip ∷ aaaa_records rs
aaaa_records (other_record ∷ rs) = aaaa_records rs

-- `pickARecords` and `pickAAAARecords`: a slice made by `make`, which is never nil, `none` here.
unfoldable pub pick_a_records : List Rr → Option (List Bytes)
unfolding a_records
pick_a_records rs = some (a_records rs)

unfoldable pub pick_aaaa_records : List Rr → Option (List Bytes)
unfolding aaaa_records
pick_aaaa_records rs = some (aaaa_records rs)

-- `if ip = pick(ans); ip == nil { return err }`
unfoldable pub only : {A : Type 0} → String → Option A → Result A
only complaint (some ip) = ok ip
only complaint none = err (msg complaint)

-- The second exchange, where the first response has no record of the preferred family.
unfoldable pub ask_again :
    {A : Type 0} → (QType → Result Response) → QType → (List Rr → Option A) → Result A
unfolding only
ask_again exchange qtype pick = elim (exchange qtype) [
  | err e ↦ err (op_error "dns exchange" e)
  | ok resp ↦
      if resp.success then only "record not found" (pick resp.answer) else err (msg "bad rcode")
]

unfoldable pub prefer :
    {A : Type 0} → (QType → Result Response) → Option A → QType → (List Rr → Option A) → Result A
unfolding ask_again
prefer exchange (some ip) qtype pick = ok ip
prefer exchange none qtype pick = ask_again exchange qtype pick

-- `resolveSingle`; `none` is the nil address that it returns in another mode.
unfoldable pub resolve_single :
    (QType → Result Response) → DnsMode → List Rr → Result (Option Bytes)
unfolding only prefer pick_first_a_record pick_first_aaaa_record
resolve_single exchange dns_ipv4_only ans =
    only "A record not found" (pick_first_a_record ans) >>= λ ip. ok (some ip)
resolve_single exchange dns_ipv6_only ans =
    only "AAAA record not found" (pick_first_aaaa_record ans) >>= λ ip. ok (some ip)
resolve_single exchange dns_prefer_ipv4 ans =
    prefer exchange (pick_first_a_record ans) type_aaaa pick_first_aaaa_record >>= λ ip.
    ok (some ip)
resolve_single exchange dns_prefer_ipv6 ans =
    prefer exchange (pick_first_aaaa_record ans) type_a pick_first_a_record >>= λ ip. ok (some ip)
resolve_single exchange _ ans = ok none

-- `resolveMulti`; the empty list stands for nil in another mode.
unfoldable pub resolve_multi : (QType → Result Response) → DnsMode → List Rr → Result (List Bytes)
unfolding only prefer pick_a_records pick_aaaa_records
resolve_multi exchange dns_multi_ipv4_only ans = only "A record not found" (pick_a_records ans)
resolve_multi exchange dns_multi_ipv6_only ans =
    only "AAAA record not found" (pick_aaaa_records ans)
resolve_multi exchange dns_multi_prefer_ipv4 ans =
    prefer exchange (pick_a_records ans) type_aaaa pick_aaaa_records
resolve_multi exchange dns_multi_prefer_ipv6 ans =
    prefer exchange (pick_aaaa_records ans) type_a pick_a_records
resolve_multi exchange _ ans = ok []
