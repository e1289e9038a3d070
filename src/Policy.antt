-- ===== src/Policy.antt =====
-- internal/core/policy.go: policies and what the configuration says of one.
pub mod Checks
pub mod Merge
mod Tests
use Prim.Native.String.{String}
use enimul.Common.{
  ℕ, suc, ◌-◌, ◌%◌, ◌^◌, Bool, true, false, not, ◌&&◌, Option, none, some, List, [], ◌∷◌, ltb, leb,
  ◌==◌, if◌then◌else◌,
}
use enimul.Common.Int.{ℤ, pos, negsuc, ◌==ℤ◌, leb_ℤ}
use enimul.Common.Result.{Error, msg, Result, ok, err, ◌>>=◌}
use enimul.Jsonx.{JsonBool, bool_unset, is_unset, JsonByte, byte_is_unset}
use enimul.Modes.{
  SniffOverrideMode, sniff_unset, Mode, mode_unset, mode_tlsrf, DnsMode, dns_unset, dns_prefer_ipv4,
}
use enimul.Dst.{Dst, zero_dst, is_zero}

-- `unsetInt`
abbrev pub unset_int : ℤ
unset_int = negsuc 0

abbrev pub is_unset_int : ℤ → Bool
is_unset_int i = i ==ℤ unset_int

abbrev pub is_0 : ℤ → Bool
is_0 i = i ==ℤ pos 0

abbrev pub unset_byte : JsonByte
unset_byte = record { byte = 0; valid = false; zero = false }

unfoldable pub sniff_is_unset : SniffOverrideMode → Bool
sniff_is_unset sniff_unset = true
sniff_is_unset _ = false

unfoldable pub mode_is_unset : Mode → Bool
mode_is_unset mode_unset = true
mode_is_unset _ = false

unfoldable pub dns_is_unset : DnsMode → Bool
dns_is_unset dns_unset = true
dns_is_unset _ = false

-- `Policy`; a duration is its number of nanoseconds.
pub record Policy : Type 0 where
  pub sniff_override_mode : SniffOverrideMode
  pub reply_first : JsonBool
  pub connect_timeout : ℤ
  pub dial_delay : ℤ
  pub host : Dst
  pub map_to : Dst
  pub port : ℤ
  pub http_status : ℤ
  pub tls13_only : JsonBool
  pub disable_ech_passthrough : JsonBool
  pub mode : Mode
  pub dns_mode : DnsMode
  pub dns_cache_ttl : ℤ
  pub num_records : ℤ
  pub num_segments : ℤ
  pub wait_for_ack : JsonBool
  pub oob : JsonBool
  pub oobex : JsonBool
  pub minor_ver : JsonByte
  pub send_interval : ℤ
  pub fake_sleep : ℤ
  pub fake_ttl : ℤ
  pub max_ttl : ℤ
  pub attempts : ℤ
  pub single_timeout : ℤ
  pub ttl_cache_ttl : ℤ

-- The zero `Policy` after `init`.
abbrev pub init_policy : Policy
init_policy = record {
  sniff_override_mode = sniff_unset;
  reply_first = bool_unset;
  connect_timeout = unset_int;
  dial_delay = unset_int;
  host = zero_dst;
  map_to = zero_dst;
  port = unset_int;
  http_status = unset_int;
  tls13_only = bool_unset;
  disable_ech_passthrough = bool_unset;
  mode = mode_unset;
  dns_mode = dns_unset;
  dns_cache_ttl = unset_int;
  num_records = pos 0;
  num_segments = pos 0;
  wait_for_ack = bool_unset;
  oob = bool_unset;
  oobex = bool_unset;
  minor_ver = unset_byte;
  send_interval = unset_int;
  fake_sleep = pos 0;
  fake_ttl = unset_int;
  max_ttl = pos 0;
  attempts = pos 0;
  single_timeout = unset_int;
  ttl_cache_ttl = unset_int;
}

-- `PolicyOptions`; a nil pointer is `none`.
pub record PolicyOptions : Type 0 where
  pub sniff_override_mode : SniffOverrideMode
  pub reply_first : JsonBool
  pub connect_timeout : Option ℤ
  pub dial_delay : Option ℤ
  pub host : Dst
  pub map_to : Dst
  pub port : Option ℕ
  pub http_status : Option ℕ
  pub tls13_only : JsonBool
  pub disable_ech_passthrough : JsonBool
  pub mode : Mode
  pub dns_mode : DnsMode
  pub dns_cache_ttl : Option ℤ
  pub num_records : Option ℕ
  pub num_segments : Option ℤ
  pub wait_for_ack : JsonBool
  pub oob : JsonBool
  pub oobex : JsonBool
  pub minor_ver : JsonByte
  pub send_interval : Option ℤ
  pub fake_sleep : Option ℤ
  pub fake_ttl : Option ℕ
  pub max_ttl : Option ℕ
  pub attempts : Option ℕ
  pub single_timeout : Option ℤ
  pub ttl_cache_ttl : Option ℤ
