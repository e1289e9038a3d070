-- ===== src/Modes/Names.antt =====
-- The names of the modes are read back.
use mathlib.Core.Logic.{◌≢◌, ◌↔◌}
use Prim.Native.String.{String}
use enimul.Common.{
  List, [], ◌∷◌, ◌≡◌, refl, sym, inl, inr, Bool-cases, Bytes, arith, bytes_eq, bytes_eq_iff, subst,
  ◌∙◌,
}
use enimul.Common.Result.{ok, ok_injective}
use enimul.Modes.{
  Mode, mode_unset, mode_raw, mode_direct, mode_tlsrf, mode_ttld, mode_block, mode_tls_alert,
  DnsMode, dns_unset, dns_prefer_ipv4, dns_prefer_ipv6, dns_ipv4_only, dns_ipv6_only,
  dns_multi_prefer_ipv4, dns_multi_prefer_ipv6, dns_multi_ipv4_only, dns_multi_ipv6_only, switch,
  mode_cases, mode_name, parse_mode, dns_cases, dns_mode_name, parse_dns_mode,
}

-- Each case assigns a value that is not `unset` and has the case's string as its name.
abbrev Named : {A : Type 0} → A → (A → Bytes) → List (Bytes × A) → Type 0
Named unset name [] = Unit
Named unset name ((s, a) ∷ cases) = ((name a ≡ s) × (a ≢ unset)) × Named unset name cases

switch-Named :
    {A : Type 0} (invalid : String) (unset : A) (name : A → Bytes) (cases : List (Bytes × A))
    (s : Bytes) (a : A)
    → Named unset name cases
    → switch invalid cases s ≡ ok a
    → (name a ≡ s) × (a ≢ unset)
unfolding switch
switch-Named invalid unset name [] s a n e = ground arith
switch-Named invalid unset name ((t, b) ∷ cases) s a n e = elim (Bool-cases (bytes_eq s t)) [
  | inl y ↦
      let same = ok_injective (rw (y, switch) at e) in
      subst (λ c. (name c ≡ s) × (c ≢ unset)) same (n.0.0 ∙ sym ((bytes_eq_iff s t).0 y), n.0.1)
  | inr y ↦ switch-Named invalid unset name cases s a n.1 (rw (y, switch) at e)
]

mode_cases-Named : Named mode_unset mode_name mode_cases
unfolding mode_cases mode_name
mode_cases-Named = (
  (refl, ground arith),
  (
    (refl, ground arith),
    (
      (refl, ground arith),
      ((refl, ground arith), ((refl, ground arith), ((refl, ground arith), tt))),
    ),
  ),
)

parse_mode-mode_name : (m : Mode) → m ≢ mode_unset → parse_mode (mode_name m) ≡ ok m
unfolding parse_mode mode_name
parse_mode-mode_name mode_unset h = absurd (h refl)
parse_mode-mode_name mode_raw h = refl
parse_mode-mode_name mode_direct h = refl
parse_mode-mode_name mode_tlsrf h = refl
parse_mode-mode_name mode_ttld h = refl
parse_mode-mode_name mode_block h = refl
parse_mode-mode_name mode_tls_alert h = refl

-- A string is read as the mode `m` exactly if it is the name of `m` and `m` is not the unset mode.
parse_mode_iff :
    (s : Bytes) (m : Mode) → (parse_mode s ≡ ok m) ↔ ((mode_name m ≡ s) × (m ≢ mode_unset))
unfolding parse_mode
parse_mode_iff s m = (
  switch-Named "invalid mode: " mode_unset mode_name mode_cases s m mode_cases-Named,
  λ (e, h). subst (λ t. parse_mode t ≡ ok m) e (parse_mode-mode_name m h),
)

dns_cases-Named : Named dns_unset dns_mode_name dns_cases
unfolding dns_cases dns_mode_name
dns_cases-Named = (
  (refl, ground arith),
  (
    (refl, ground arith),
    (
      (refl, ground arith),
      (
        (refl, ground arith),
        (
          (refl, ground arith),
          ((refl, ground arith), ((refl, ground arith), ((refl, ground arith), tt))),
        ),
      ),
    ),
  ),
)

parse_dns_mode-dns_mode_name :
    (m : DnsMode) → m ≢ dns_unset → parse_dns_mode (dns_mode_name m) ≡ ok m
unfolding parse_dns_mode dns_mode_name
parse_dns_mode-dns_mode_name dns_unset h = absurd (h refl)
parse_dns_mode-dns_mode_name dns_prefer_ipv4 h = refl
parse_dns_mode-dns_mode_name dns_prefer_ipv6 h = refl
parse_dns_mode-dns_mode_name dns_ipv4_only h = refl
parse_dns_mode-dns_mode_name dns_ipv6_only h = refl
parse_dns_mode-dns_mode_name dns_multi_prefer_ipv4 h = refl
parse_dns_mode-dns_mode_name dns_multi_prefer_ipv6 h = refl
parse_dns_mode-dns_mode_name dns_multi_ipv4_only h = refl
parse_dns_mode-dns_mode_name dns_multi_ipv6_only h = refl

-- A string is read as the DNS mode `m` exactly if it is the name of `m` and `m` is not the unset
-- mode.
parse_dns_mode_iff :
    (s : Bytes) (m : DnsMode)
    → (parse_dns_mode s ≡ ok m) ↔ ((dns_mode_name m ≡ s) × (m ≢ dns_unset))
unfolding parse_dns_mode
parse_dns_mode_iff s m = (
  switch-Named "invalid dns_mode " dns_unset dns_mode_name dns_cases s m dns_cases-Named,
  λ (e, h). subst (λ t. parse_dns_mode t ≡ ok m) e (parse_dns_mode-dns_mode_name m h),
)

-- A string is read as a mode, or as a DNS mode, exactly if it is the name of that mode and the mode
-- is not the unset one.
pub mode_readers_iff :
    (s : Bytes) (m : Mode) (d : DnsMode)
    → ((parse_mode s ≡ ok m) ↔ ((mode_name m ≡ s) × (m ≢ mode_unset)))
      × ((parse_dns_mode s ≡ ok d) ↔ ((dns_mode_name d ≡ s) × (d ≢ dns_unset)))
mode_readers_iff s m d = (parse_mode_iff s m, parse_dns_mode_iff s d)
