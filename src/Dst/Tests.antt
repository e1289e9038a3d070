-- ===== src/Dst/Tests.antt =====
-- Runs of the reader of destinations.
use enimul.Common.{Option, none, some, [], ◌∷◌, ◌≡◌, refl, Bytes}
use enimul.Outcome.{ok}
use enimul.Outcome.Ensures.{Ensures}
use enimul.Netip.{Addr, v4, Parsers}
use enimul.Dst.{AddrPort, Decoded, zero_dst, unmarshal_dst}
use enimul.Dst.Valid.{IsWellFormed, unmarshal_dst-IsWellFormed}

-- An address is one byte here, and an address with its port two.
abbrev parse_byte : Bytes → Option Addr
parse_byte (a ∷ []) = some (v4 a)
parse_byte _ = none

abbrev parsers : Parsers
parsers = record { parse_addr = parse_byte; parse_prefix = λ _. none }

abbrev parse_two : Bytes → Option AddrPort
parse_two (a ∷ p ∷ []) = some (record { addr = v4 a; port = p })
parse_two _ = none

abbrev two : Decoded
two = record { as_string = none; as_list = some ((1 ∷ []) ∷ (2 ∷ 53 ∷ []) ∷ []) }

unmarshal_dst-IsWellFormed_example : Ensures IsWellFormed (unmarshal_dst parsers parse_two two)
unmarshal_dst-IsWellFormed_example = unmarshal_dst-IsWellFormed parsers parse_two two

unmarshal_dst_run :
    unmarshal_dst parsers parse_two two
    ≡ ok (record zero_dst {
      multi = some (record { addr = v4 1; port = 0 } ∷ record { addr = v4 2; port = 53 } ∷ []);
    })
unfolding unmarshal_dst
unmarshal_dst_run = refl
