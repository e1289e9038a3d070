-- ===== src/Dst/Valid.antt =====
-- The destinations that the constructors and the configuration make.
use enimul.Common.{
  suc, ◌≤◌, false, Option, some, List, [], ◌∷◌, ◌≡◌, refl, ap, inl, inr, arith, ltb, Bool-cases,
  Option-cases, Bytes, bytes_eq, length,
}
use enimul.Outcome.{ok}
use enimul.Outcome.Ensures.{Ensures, returns, fails, Ensures-bind}
use enimul.Netip.{Parsers}
use enimul.Dst.{
  AddrPort, Dst, is_multi, get_single, is_zero, Decoded, parse_one, parse_addrs, unmarshal_dst,
}

-- A destination is set, in one way: as a string, which is read without a panic, or as a list of
-- at least two addresses.
pub data IsWellFormed : Dst → Type 0 where
  as_single :
      {d : Dst} (s : Bytes)
      → get_single d ≡ ok s
      → is_multi d ≡ false
      → is_zero d ≡ false
      → IsWellFormed d
  as_multi :
      {d : Dst} (addrs : List AddrPort)
      → d.multi ≡ some addrs
      → 2 ≤ length addrs
      → get_single d ≡ ok []
      → is_zero d ≡ false
      → IsWellFormed d

parse_one-Ensures :
    (np : Parsers) (f : Bytes → Option AddrPort) (s : Bytes)
    → Ensures (λ _. Unit {0}) (parse_one np f s)
unfolding parse_one
parse_one-Ensures np f s = elim (Option-cases (f s)) [
  | inr (a, e) ↦ rw (e, parse_one) (returns tt)
  | inl e ↦ elim (Option-cases (np.parse_addr s)) [
    | inr (a, e2) ↦ rw (e, e2, parse_one) (returns tt)
    | inl e2 ↦ rw (e, e2, parse_one) fails
  ]
]

parse_addrs-length :
    (np : Parsers) (f : Bytes → Option AddrPort) (ss : List Bytes)
    → Ensures (λ addrs. length addrs ≡ length ss) (parse_addrs np f ss)
unfolding parse_addrs
parse_addrs-length np f [] = returns refl
parse_addrs-length np f (s ∷ ss) =
    Ensures-bind (parse_one-Ensures np f s)
      (λ a _. Ensures-bind (parse_addrs-length np f ss) (λ rest e. returns (ap suc e)))

-- `Dst.UnmarshalJSON` never panics, and the destination that it makes is well-formed: it is not the
-- zero one, and either it is a string, which `Single` answers, or it has at least two addresses and
-- `Single` answers the empty string without a panic.
pub unmarshal_dst-IsWellFormed :
    (np : Parsers) (f : Bytes → Option AddrPort) (json : Decoded)
    → Ensures IsWellFormed (unmarshal_dst np f json)
unfolding unmarshal_dst get_single is_zero is_multi bytes_eq
unmarshal_dst-IsWellFormed np f json = elim (Option-cases json.as_string) [
  | inr (s, e) ↦ rw e (returns (as_single s refl refl refl))
  | inl e ↦ elim (Option-cases json.as_list) [
    | inl e2 ↦ rw (e, e2) fails
    | inr (ss, e2) ↦ elim (Bool-cases (ltb (length ss) 2)) [
      | inl few ↦ rw (e, e2, few) fails
      | inr many ↦
          rw (e, e2, many)
            (Ensures-bind (parse_addrs-length np f ss)
              (λ addrs same. returns (as_multi addrs refl (ground (arith, same, many)) refl refl)))
    ]
  ]
]
