-- ===== src/Modes.antt =====
-- internal/core/policy.go and dns.go: the modes of a policy and their names in the configuration.
pub mod Names
mod Tests
use Prim.Native.String.{String}
use enimul.Common.{ℕ, Bool, true, false, List, [], ◌∷◌, if◌then◌else◌, Bytes, bytes_eq}
use enimul.Common.Result.{Error, msg_with, Result, ok, err}

-- A Go `switch` on a string whose cases assign a value; `invalid` begins the error of its default.
unfoldable pub switch : {A : Type 0} → String → List (Bytes × A) → Bytes → Result A
unfolding bytes_eq
switch invalid [] s = err (msg_with invalid s)
switch invalid ((name, a) ∷ cases) s = if bytes_eq s name then ok a else switch invalid cases s

-- `SniffOverrideMode`
pub data SniffOverrideMode : Type 0 where
  sniff_unset sniff_off sniff_always sniff_policy_exists sniff_route_only : SniffOverrideMode

-- `Mode`
pub data Mode : Type 0 where
  mode_unset mode_raw mode_direct mode_tlsrf mode_ttld mode_block mode_tls_alert : Mode

-- `DNSMode`
pub data DnsMode : Type 0 where
  dns_unset dns_prefer_ipv4 dns_prefer_ipv6 dns_ipv4_only dns_ipv6_only dns_multi_prefer_ipv4
        dns_multi_prefer_ipv6 dns_multi_ipv4_only dns_multi_ipv6_only :
      DnsMode

unfoldable pub sniff_cases : List (Bytes × SniffOverrideMode)
sniff_cases =
    (b'o' ∷ b'f' ∷ b'f' ∷ [], sniff_off)
    ∷ (b'a' ∷ b'l' ∷ b'w' ∷ b'a' ∷ b'y' ∷ b's' ∷ [], sniff_always)
    ∷ (
      b'p' ∷ b'o' ∷ b'l' ∷ b'i' ∷ b'c' ∷ b'y' ∷ b'_' ∷ b'e' ∷ b'x' ∷ b'i' ∷ b's' ∷ b't' ∷ b's' ∷ [],
      sniff_policy_exists,
    )
    ∷ (b'r' ∷ b'o' ∷ b'u' ∷ b't' ∷ b'e' ∷ b'_' ∷ b'o' ∷ b'n' ∷ b'l' ∷ b'y' ∷ [], sniff_route_only)
    ∷ []

-- `SniffOverrideMode.UnmarshalJSON`, on the string that the JSON holds.
unfoldable pub parse_sniff_override_mode : Bytes → Result SniffOverrideMode
unfolding switch sniff_cases
parse_sniff_override_mode = switch "invalid sniff_override: " sniff_cases

unfoldable pub mode_cases : List (Bytes × Mode)
mode_cases =
    (b'r' ∷ b'a' ∷ b'w' ∷ [], mode_raw)
    ∷ (b'd' ∷ b'i' ∷ b'r' ∷ b'e' ∷ b'c' ∷ b't' ∷ [], mode_direct)
    ∷ (b't' ∷ b'l' ∷ b's' ∷ b'-' ∷ b'r' ∷ b'f' ∷ [], mode_tlsrf)
    ∷ (b't' ∷ b't' ∷ b'l' ∷ b'-' ∷ b'd' ∷ [], mode_ttld)
    ∷ (b'b' ∷ b'l' ∷ b'o' ∷ b'c' ∷ b'k' ∷ [], mode_block)
    ∷ (b't' ∷ b'l' ∷ b's' ∷ b'-' ∷ b'a' ∷ b'l' ∷ b'e' ∷ b'r' ∷ b't' ∷ [], mode_tls_alert)
    ∷ []

-- `Mode.UnmarshalJSON`, on the string that the JSON holds.
unfoldable pub parse_mode : Bytes → Result Mode
unfolding switch mode_cases
parse_mode = switch "invalid mode: " mode_cases

-- `Mode.String`
unfoldable pub mode_name : Mode → Bytes
mode_name mode_raw = b'r' ∷ b'a' ∷ b'w' ∷ []
mode_name mode_direct = b'd' ∷ b'i' ∷ b'r' ∷ b'e' ∷ b'c' ∷ b't' ∷ []
mode_name mode_tlsrf = b't' ∷ b'l' ∷ b's' ∷ b'-' ∷ b'r' ∷ b'f' ∷ []
mode_name mode_ttld = b't' ∷ b't' ∷ b'l' ∷ b'-' ∷ b'd' ∷ []
mode_name mode_block = b'b' ∷ b'l' ∷ b'o' ∷ b'c' ∷ b'k' ∷ []
mode_name mode_tls_alert = b't' ∷ b'l' ∷ b's' ∷ b'-' ∷ b'a' ∷ b'l' ∷ b'e' ∷ b'r' ∷ b't' ∷ []
mode_name mode_unset = b'u' ∷ b'n' ∷ b'k' ∷ b'n' ∷ b'o' ∷ b'w' ∷ b'n' ∷ []

unfoldable pub dns_cases : List (Bytes × DnsMode)
dns_cases =
    (
      b'p' ∷ b'r' ∷ b'e' ∷ b'f' ∷ b'e' ∷ b'r' ∷ b'_' ∷ b'i' ∷ b'p' ∷ b'v' ∷ b'4' ∷ [],
      dns_prefer_ipv4,
    )
    ∷ (
      b'p' ∷ b'r' ∷ b'e' ∷ b'f' ∷ b'e' ∷ b'r' ∷ b'_' ∷ b'i' ∷ b'p' ∷ b'v' ∷ b'6' ∷ [],
      dns_prefer_ipv6,
    )
    ∷ (b'i' ∷ b'p' ∷ b'v' ∷ b'4' ∷ b'_' ∷ b'o' ∷ b'n' ∷ b'l' ∷ b'y' ∷ [], dns_ipv4_only)
    ∷ (b'i' ∷ b'p' ∷ b'v' ∷ b'6' ∷ b'_' ∷ b'o' ∷ b'n' ∷ b'l' ∷ b'y' ∷ [], dns_ipv6_only)
    ∷ (
      b'm' ∷ b'u' ∷ b'l' ∷ b't' ∷ b'i' ∷ b'_' ∷ b'p' ∷ b'r' ∷ b'e' ∷ b'f' ∷ b'e' ∷ b'r' ∷ b'_'
          ∷ b'i' ∷ b'p' ∷ b'v' ∷ b'4' ∷ [],
      dns_multi_prefer_ipv4,
    )
    ∷ (
      b'm' ∷ b'u' ∷ b'l' ∷ b't' ∷ b'i' ∷ b'_' ∷ b'p' ∷ b'r' ∷ b'e' ∷ b'f' ∷ b'e' ∷ b'r' ∷ b'_'
          ∷ b'i' ∷ b'p' ∷ b'v' ∷ b'6' ∷ [],
      dns_multi_prefer_ipv6,
    )
    ∷ (
      b'm' ∷ b'u' ∷ b'l' ∷ b't' ∷ b'i' ∷ b'_' ∷ b'i' ∷ b'p' ∷ b'v' ∷ b'4' ∷ b'_' ∷ b'o' ∷ b'n'
          ∷ b'l' ∷ b'y' ∷ [],
      dns_multi_ipv4_only,
    )
    ∷ (
      b'm' ∷ b'u' ∷ b'l' ∷ b't' ∷ b'i' ∷ b'_' ∷ b'i' ∷ b'p' ∷ b'v' ∷ b'6' ∷ b'_' ∷ b'o' ∷ b'n'
          ∷ b'l' ∷ b'y' ∷ [],
      dns_multi_ipv6_only,
    )
    ∷ []

-- `DNSMode.UnmarshalJSON`, on the string that the JSON holds.
unfoldable pub parse_dns_mode : Bytes → Result DnsMode
unfolding switch dns_cases
parse_dns_mode = switch "invalid dns_mode " dns_cases

-- `DNSMode.String`
unfoldable pub dns_mode_name : DnsMode → Bytes
dns_mode_name dns_prefer_ipv4 =
    b'p' ∷ b'r' ∷ b'e' ∷ b'f' ∷ b'e' ∷ b'r' ∷ b'_' ∷ b'i' ∷ b'p' ∷ b'v' ∷ b'4' ∷ []
dns_mode_name dns_prefer_ipv6 =
    b'p' ∷ b'r' ∷ b'e' ∷ b'f' ∷ b'e' ∷ b'r' ∷ b'_' ∷ b'i' ∷ b'p' ∷ b'v' ∷ b'6' ∷ []
dns_mode_name dns_ipv4_only = b'i' ∷ b'p' ∷ b'v' ∷ b'4' ∷ b'_' ∷ b'o' ∷ b'n' ∷ b'l' ∷ b'y' ∷ []
dns_mode_name dns_ipv6_only = b'i' ∷ b'p' ∷ b'v' ∷ b'6' ∷ b'_' ∷ b'o' ∷ b'n' ∷ b'l' ∷ b'y' ∷ []
dns_mode_name dns_multi_prefer_ipv4 =
    b'm' ∷ b'u' ∷ b'l' ∷ b't' ∷ b'i' ∷ b'_' ∷ b'p' ∷ b'r' ∷ b'e' ∷ b'f' ∷ b'e' ∷ b'r' ∷ b'_' ∷ b'i'
    ∷ b'p' ∷ b'v' ∷ b'4' ∷ []
dns_mode_name dns_multi_prefer_ipv6 =
    b'm' ∷ b'u' ∷ b'l' ∷ b't' ∷ b'i' ∷ b'_' ∷ b'p' ∷ b'r' ∷ b'e' ∷ b'f' ∷ b'e' ∷ b'r' ∷ b'_' ∷ b'i'
    ∷ b'p' ∷ b'v' ∷ b'6' ∷ []
dns_mode_name dns_multi_ipv4_only =
    b'm' ∷ b'u' ∷ b'l' ∷ b't' ∷ b'i' ∷ b'_' ∷ b'i' ∷ b'p' ∷ b'v' ∷ b'4' ∷ b'_' ∷ b'o' ∷ b'n' ∷ b'l'
    ∷ b'y' ∷ []
dns_mode_name dns_multi_ipv6_only =
    b'm' ∷ b'u' ∷ b'l' ∷ b't' ∷ b'i' ∷ b'_' ∷ b'i' ∷ b'p' ∷ b'v' ∷ b'6' ∷ b'_' ∷ b'o' ∷ b'n' ∷ b'l'
    ∷ b'y' ∷ []
dns_mode_name dns_unset = b'u' ∷ b'n' ∷ b'k' ∷ b'n' ∷ b'o' ∷ b'w' ∷ b'n' ∷ []
