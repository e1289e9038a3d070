-- ===== src/Dns/Choice.antt =====
-- The address that is chosen from the responses.
use mathlib.Core.List.{flatten}
use enimul.Common.{
  map, true, Option, none, some, List, [], ◌∷◌, ◌≡◌, refl, sym, ap, ◌∙◌, inl, inr, arith,
  Bool-cases, if◌then◌else◌, Bytes,
}
use enimul.Common.Result.{msg, op_error, Result, ok, err, >>=-eq-ok, ok_injective}
use enimul.Modes.{
  DnsMode, dns_prefer_ipv4, dns_prefer_ipv6, dns_ipv4_only, dns_ipv6_only, dns_multi_prefer_ipv4,
  dns_multi_prefer_ipv6, dns_multi_ipv4_only, dns_multi_ipv6_only,
}
use enimul.Dns.{
  Rr, a_record, aaaa_record, other_record, QType, type_a, type_aaaa, Response, pick_first_a_record,
  pick_first_aaaa_record, a_records, aaaa_records, only, ask_again, prefer, resolve_single,
  resolve_multi,
}

-- The records of the family that a mode asks for first.
unfoldable pub first_family : DnsMode → List Rr → List Bytes
unfolding a_records aaaa_records
first_family dns_prefer_ipv4 rs = a_records rs
first_family dns_ipv4_only rs = a_records rs
first_family dns_multi_prefer_ipv4 rs = a_records rs
first_family dns_multi_ipv4_only rs = a_records rs
first_family _ rs = aaaa_records rs

pub data Family : Type 0 where
  ipv4 ipv6 : Family

-- The addresses of a family that one record holds: its own one or none.
abbrev pub addresses_of : Family → Rr → List Bytes
addresses_of ipv4 (a_record ip) = ip ∷ []
addresses_of ipv6 (aaaa_record ip) = ip ∷ []
addresses_of _ _ = []

a_records-flatten : (rs : List Rr) → a_records rs ≡ flatten (map (addresses_of ipv4) rs)
unfolding a_records flatten
a_records-flatten [] = refl
a_records-flatten (a_record ip ∷ rs) = ap (◌∷◌ ip) (a_records-flatten rs)
a_records-flatten (aaaa_record ip ∷ rs) = a_records-flatten rs
a_records-flatten (other_record ∷ rs) = a_records-flatten rs

aaaa_records-flatten : (rs : List Rr) → aaaa_records rs ≡ flatten (map (addresses_of ipv6) rs)
unfolding aaaa_records flatten
aaaa_records-flatten [] = refl
aaaa_records-flatten (a_record ip ∷ rs) = aaaa_records-flatten rs
aaaa_records-flatten (aaaa_record ip ∷ rs) = ap (◌∷◌ ip) (aaaa_records-flatten rs)
aaaa_records-flatten (other_record ∷ rs) = aaaa_records-flatten rs

-- The multi modes, and the family that each of them asks for first.
pub data IsMulti : DnsMode → Family → Type 0 where
  multi_prefer_ipv4 : IsMulti dns_multi_prefer_ipv4 ipv4
  multi_prefer_ipv6 : IsMulti dns_multi_prefer_ipv6 ipv6
  multi_ipv4_only : IsMulti dns_multi_ipv4_only ipv4
  multi_ipv6_only : IsMulti dns_multi_ipv6_only ipv6

-- In each of the four multi modes `resolveMulti` succeeds with the addresses of every record of the
-- family asked for first, in the order of the response: where there is none, the list is empty, and
-- neither is there an error nor is the other family asked for, whatever the exchange would answer.
pub resolve_multi-flatten :
    (exchange : QType → Result Response) {mode : DnsMode} {family : Family} (ans : List Rr)
    → IsMulti mode family
    → resolve_multi exchange mode ans ≡ ok (flatten (map (addresses_of family) ans))
unfolding resolve_multi
resolve_multi-flatten exchange ans multi_prefer_ipv4 = ap ok (a_records-flatten ans)
resolve_multi-flatten exchange ans multi_prefer_ipv6 = ap ok (aaaa_records-flatten ans)
resolve_multi-flatten exchange ans multi_ipv4_only = ap ok (a_records-flatten ans)
resolve_multi-flatten exchange ans multi_ipv6_only = ap ok (aaaa_records-flatten ans)

-- The records of the other family.
unfoldable pub other_family : DnsMode → List Rr → List Bytes
unfolding a_records aaaa_records
other_family dns_prefer_ipv4 rs = aaaa_records rs
other_family _ rs = a_records rs

abbrev pub head? : {A : Type 0} → List A → Option A
head? [] = none
head? (x ∷ xs) = some x

pick_first_a_record-head : (rs : List Rr) → pick_first_a_record rs ≡ head? (a_records rs)
unfolding pick_first_a_record a_records
pick_first_a_record-head [] = refl
pick_first_a_record-head (a_record ip ∷ rs) = refl
pick_first_a_record-head (aaaa_record ip ∷ rs) = pick_first_a_record-head rs
pick_first_a_record-head (other_record ∷ rs) = pick_first_a_record-head rs

pick_first_aaaa_record-head : (rs : List Rr) → pick_first_aaaa_record rs ≡ head? (aaaa_records rs)
unfolding pick_first_aaaa_record aaaa_records
pick_first_aaaa_record-head [] = refl
pick_first_aaaa_record-head (a_record ip ∷ rs) = pick_first_aaaa_record-head rs
pick_first_aaaa_record-head (aaaa_record ip ∷ rs) = refl
pick_first_aaaa_record-head (other_record ∷ rs) = pick_first_aaaa_record-head rs

-- The modes that ask again, and for what.
pub data Prefers : DnsMode → QType → Type 0 where
  prefers_ipv4 : Prefers dns_prefer_ipv4 type_aaaa
  prefers_ipv6 : Prefers dns_prefer_ipv6 type_a

-- Where the chosen address comes from: the first record of the first family, or, where the first
-- response has none and the mode prefers a family, the first of the other one in a second response.
pub data Chosen (exchange : QType → Result Response) (mode : DnsMode) (ans : List Rr) (ip : Bytes)
    : Type 0 where
  in_first : head? (first_family mode ans) ≡ some ip → Chosen exchange mode ans ip
  in_second :
      {qtype : QType} {resp : Response}
      → head? (first_family mode ans) ≡ none
      → Prefers mode qtype
      → exchange qtype ≡ ok resp
      → resp.success ≡ true
      → head? (other_family mode resp.answer) ≡ some ip
      → Chosen exchange mode ans ip

only-ok :
    {A : Type 0} (complaint : Prim.Native.String.String) (o : Option A) {ip : A}
    → only complaint o ≡ ok ip
    → o ≡ some ip
unfolding only
only-ok complaint (some ip) e = ap some (ok_injective e)
only-ok complaint none e = ground arith

ask_again-ok :
    {A : Type 0} (exchange : QType → Result Response) (qtype : QType) (pick : List Rr → Option A)
    {ip : A}
    → ask_again exchange qtype pick ≡ ok ip
    → (resp : Response) × (exchange qtype ≡ ok resp)
      × (resp.success ≡ true)
      × (pick resp.answer ≡ some ip)
unfolding ask_again
ask_again-ok exchange qtype pick {ip} e = go (exchange qtype) refl e
  where
    go :
        (r : Result Response)
        → exchange qtype ≡ r
        → elim r [
          | err e ↦ err (op_error "dns exchange" e)
          | ok resp ↦
              if resp.success
              then only "record not found" (pick resp.answer)
              else err (msg "bad rcode")
        ]
          ≡ ok ip
        → (resp : Response) × (exchange qtype ≡ ok resp)
          × (resp.success ≡ true)
          × (pick resp.answer ≡ some ip)
    go (err x) same e = ground arith
    go (ok resp) same e = elim (Bool-cases resp.success) [
      | inl y ↦ (resp, same, y, only-ok _ (pick resp.answer) (rw y at e))
      | inr y ↦ absurd (ground (arith, rw y at e))
    ]

prefer-Chosen :
    {mode : DnsMode} {qtype : QType} (exchange : QType → Result Response) (ans : List Rr)
    (o : Option Bytes) (pick : List Rr → Option Bytes) {ip : Bytes}
    → o ≡ head? (first_family mode ans)
    → ((rs : List Rr) → pick rs ≡ head? (other_family mode rs))
    → Prefers mode qtype
    → prefer exchange o qtype pick ≡ ok ip
    → Chosen exchange mode ans ip
unfolding prefer
prefer-Chosen exchange ans (some a) pick same picks p e =
    in_first (sym same ∙ ap some (ok_injective e))
prefer-Chosen {qtype} exchange ans none pick same picks p e =
    let (resp, asked, good, picked) = ask_again-ok exchange qtype pick e in
    in_second (sym same) p asked good (sym (picks resp.answer) ∙ picked)

pub data IsSingle : DnsMode → Type 0 where
  prefer_ipv4 : IsSingle dns_prefer_ipv4
  prefer_ipv6 : IsSingle dns_prefer_ipv6
  ipv4_only : IsSingle dns_ipv4_only
  ipv6_only : IsSingle dns_ipv6_only

-- In each of the four single modes, where `resolveSingle` succeeds it answers an address, which is
-- the first record of the family asked for first, or, where the first response has none and the
-- mode only prefers the family, the first record of the other one in a successful second response.
pub resolve_single-Chosen :
    (exchange : QType → Result Response) (mode : DnsMode) (ans : List Rr) (r : Option Bytes)
    → IsSingle mode
    → resolve_single exchange mode ans ≡ ok r
    → (ip : Bytes) × (r ≡ some ip) × Chosen exchange mode ans ip
unfolding resolve_single first_family other_family
resolve_single-Chosen exchange mode ans r prefer_ipv4 e =
    let (ip, found, run) =
      >>=-eq-ok (prefer exchange (pick_first_a_record ans) type_aaaa pick_first_aaaa_record) _ e in
    (
      ip,
      sym (ok_injective run),
      prefer-Chosen exchange ans _ _ (pick_first_a_record-head ans) pick_first_aaaa_record-head
          prefers_ipv4 found,
    )
resolve_single-Chosen exchange mode ans r prefer_ipv6 e =
    let (ip, found, run) =
      >>=-eq-ok (prefer exchange (pick_first_aaaa_record ans) type_a pick_first_a_record) _ e in
    (
      ip,
      sym (ok_injective run),
      prefer-Chosen exchange ans _ _ (pick_first_aaaa_record-head ans) pick_first_a_record-head
          prefers_ipv6 found,
    )
resolve_single-Chosen exchange mode ans r ipv4_only e =
    let (ip, found, run) = >>=-eq-ok (only "A record not found" (pick_first_a_record ans)) _ e in
    (ip, sym (ok_injective run), in_first (sym (pick_first_a_record-head ans) ∙ only-ok _ _ found))
resolve_single-Chosen exchange mode ans r ipv6_only e =
    let (ip, found, run) =
      >>=-eq-ok (only "AAAA record not found" (pick_first_aaaa_record ans)) _ e in
    (
      ip,
      sym (ok_injective run),
      in_first (sym (pick_first_aaaa_record-head ans) ∙ only-ok _ _ found),
    )
