-- ===== src/Modes/Tests.antt =====
-- Runs of the readers of the modes.
use mathlib.Core.Logic.{◌≢◌, ◌↔◌}
use enimul.Common.{[], ◌∷◌, ◌≡◌, Bytes}
use enimul.Common.Result.{ok}
use enimul.Modes.{
  mode_ttld, mode_unset, mode_name, parse_mode, dns_multi_ipv6_only, dns_unset, dns_mode_name,
  parse_dns_mode,
}
use enimul.Modes.Names.{mode_readers_iff}

abbrev ttl_d : Bytes
ttl_d = b't' ∷ b't' ∷ b'l' ∷ b'-' ∷ b'd' ∷ []

mode_readers_iff_example :
    ((parse_mode ttl_d ≡ ok mode_ttld) ↔ ((mode_name mode_ttld ≡ ttl_d) × (mode_ttld ≢ mode_unset)))
    × ((parse_dns_mode ttl_d ≡ ok dns_multi_ipv6_only)
        ↔ ((dns_mode_name dns_multi_ipv6_only ≡ ttl_d) × (dns_multi_ipv6_only ≢ dns_unset)))
mode_readers_iff_example = mode_readers_iff ttl_d mode_ttld dns_multi_ipv6_only
