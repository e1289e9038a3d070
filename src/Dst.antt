-- ===== src/Dst.antt =====
-- internal/dial/dst.go: a destination, either one string or several addresses. A nil `*Dst` is left
-- to the callers, none of which passes one where these are read.
pub mod Valid
mod Tests
use Prim.Native.String.{String}
use enimul.Common.{
  ℕ, Bool, true, false, not, ◌&&◌, Option, none, some, List, [], ◌∷◌, map, ltb, if◌then◌else◌,
  Bytes, bytes_eq, length,
}
use enimul.Common.Result.{Error, msg, msg_with, external}
use enimul.Outcome.{Outcome, ok, failed, panic, ◌>>=◌}
use enimul.Netip.{Addr, Parsers}

-- `netip.AddrPort`
pub record AddrPort : Type 0 where
  pub addr : Addr
  pub port : ℕ

-- `Dst`; `none` is the nil slice.
pub record Dst : Type 0 where
  pub single : Bytes
  pub single_valid : Bool
  pub multi : Option (List AddrPort)

abbrev pub zero_dst : Dst
zero_dst = record { single = []; single_valid = false; multi = none }

-- `NewSingleDst`
unfoldable pub new_single_dst : Bytes → Dst
new_single_dst s = record { single = s; single_valid = true; multi = none }

-- `NewDstFromAddrs`
unfoldable pub new_dst_from_addrs : List Addr → Dst
new_dst_from_addrs addrs = record {
  single = [];
  single_valid = false;
  multi = some (map (λ a. record { addr = a; port = 0 }) addrs);
}

-- `IsMulti`
unfoldable pub is_multi : Dst → Bool
is_multi d = elim d.multi [ some addrs ↦ true | none ↦ false ]

-- `Single`, which panics on a string that is not marked valid.
unfoldable pub get_single : Dst → Outcome Bytes
unfolding bytes_eq
get_single d =
    if d.single_valid then ok d.single else if not (bytes_eq d.single []) then panic else ok []

-- `IsZero`
unfoldable pub is_zero : Dst → Bool
unfolding is_multi
is_zero d = not d.single_valid && not (is_multi d)

-- What encoding/json makes of the data: a string, or a list of strings; each `none` is an error.
pub record Decoded : Type 0 where
  pub as_string : Option Bytes
  pub as_list : Option (List Bytes)

-- One round of the loop of `UnmarshalJSON`; `parse_addr_port` is `netip.ParseAddrPort`.
unfoldable pub parse_one : Parsers → (Bytes → Option AddrPort) → Bytes → Outcome AddrPort
parse_one np parse_addr_port s = elim (parse_addr_port s) [
  | some ap ↦ ok ap
  | none ↦ elim (np.parse_addr s) [
    | some a ↦ ok (record { addr = a; port = 0 })
    | none ↦ failed (msg_with "invalid address: " s)
  ]
]

unfoldable pub parse_addrs :
    Parsers → (Bytes → Option AddrPort) → List Bytes → Outcome (List AddrPort)
unfolding parse_one
parse_addrs np parse_addr_port [] = ok []
parse_addrs np parse_addr_port (s ∷ ss) = do
  first ← parse_one np parse_addr_port s
  rest ← parse_addrs np parse_addr_port ss
  ok (first ∷ rest)

-- `Dst.UnmarshalJSON`, into the zero `Dst`. The two errors of encoding/json are joined into one.
unfoldable pub unmarshal_dst : Parsers → (Bytes → Option AddrPort) → Decoded → Outcome Dst
unfolding parse_addrs
unmarshal_dst np parse_addr_port json = elim json.as_string [
  | some s ↦ ok (record zero_dst { single = s; single_valid = true })
  | none ↦ elim json.as_list [
    | none ↦ failed (external 0)
    | some ss ↦
        if ltb (length ss) 2
        then failed (msg "the number of addresses must be greater than 1")
        else (parse_addrs np parse_addr_port ss >>= λ addrs.
            ok (record zero_dst { multi = some addrs }))
  ]
]
