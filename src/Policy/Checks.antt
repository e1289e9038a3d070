-- ===== src/Policy/Checks.antt =====
-- internal/core/policy.go: `newPolicy`.
pub mod Validation
use Prim.Native.String.{String}
use enimul.Common.{
  ℕ, suc, ◌-◌, ◌%◌, ◌^◌, Bool, true, false, not, ◌&&◌, Option, none, some, List, [], ◌∷◌, ltb, leb,
  ◌==◌, if◌then◌else◌,
}
use enimul.Common.Int.{ℤ, pos, negsuc, ◌==ℤ◌, leb_ℤ}
use enimul.Common.Result.{Error, msg}
use enimul.Outcome.{Outcome, ok, failed, ◌>>=◌}
use enimul.Jsonx.{JsonBool, bool_unset, is_unset, JsonByte, byte_is_unset}
use enimul.Modes.{
  SniffOverrideMode, sniff_unset, Mode, mode_unset, mode_tlsrf, DnsMode, dns_unset, dns_prefer_ipv4,
}
use enimul.Dst.{Dst, zero_dst, is_zero}
use enimul.Policy.{
  Policy, PolicyOptions, init_policy, unset_int, is_unset_int, is_0, unset_byte, sniff_is_unset,
  mode_is_unset, dns_is_unset,
}

-- The conversion `int(x)` of a 64-bit `uint`, which wraps around.
abbrev pub int_of_uint : ℕ → ℤ
int_of_uint n = let m = n % 2 ^ 64 in if ltb m (2 ^ 63) then pos m else negsuc (2 ^ 64 - m - 1)

-- `if o.X != nil { if bad(*o.X) { return err }; p.X = conv(*o.X) }`, with what stands in `p.X` else.
unfoldable pub checked : {A : Type 0} → (A → Bool) → String → (A → ℤ) → ℤ → Option A → Outcome ℤ
checked bad complaint conv initial none = ok initial
checked bad complaint conv initial (some a) = if bad a then failed (msg complaint) else ok (conv a)

-- The same with no check, for a field that `init` has set to `unsetInt`.
unfoldable pub optional : (ℕ → ℤ) → Option ℕ → ℤ
optional conv none = unset_int
optional conv (some n) = conv n

abbrev pub not_positive : ℤ → Bool
not_positive d = leb_ℤ d (pos 0)

abbrev pub negative : ℤ → Bool
negative d = leb_ℤ d unset_int

abbrev pub duration : ℤ → ℤ
duration d = d

-- `newPolicy`
unfoldable pub new_policy : PolicyOptions → Outcome Policy
unfolding checked optional
new_policy o = do
  num_records ← checked (λ n. n == 0) "num_records cannot be 0" int_of_uint (pos 0) o.num_records
  num_segments ← checked is_0 "num_segs cannot be 0" duration (pos 0) o.num_segments
  attempts ← checked (λ n. n == 0) "attempts cannot be 0" int_of_uint (pos 0) o.attempts
  max_ttl ← checked (λ n. n == 0) "max_ttl cannot be 0" pos (pos 0) o.max_ttl
  connect_timeout ←
      checked not_positive "connect_timeout must be positive" duration unset_int o.connect_timeout
  dial_delay ← checked not_positive "dial_delay must be positive" duration unset_int o.dial_delay
  send_interval ←
      checked negative "send_interval cannot be negative" duration unset_int o.send_interval
  fake_sleep ← checked not_positive "fake_sleep must be positive" duration (pos 0) o.fake_sleep
  single_timeout ←
      checked not_positive "single_timeout must be positive" duration unset_int o.single_timeout
  dns_cache_ttl ←
      checked negative "dns_cache_ttl cannot be negative" duration unset_int o.dns_cache_ttl
  ttl_cache_ttl ←
      checked negative "ttl_cache_ttl cannot be negative" duration unset_int o.ttl_cache_ttl
  ok (record {
    sniff_override_mode = o.sniff_override_mode;
    reply_first = o.reply_first;
    connect_timeout = connect_timeout;
    dial_delay = dial_delay;
    host = o.host;
    map_to = o.map_to;
    port = optional pos o.port;
    http_status = optional int_of_uint o.http_status;
    tls13_only = o.tls13_only;
    disable_ech_passthrough = o.disable_ech_passthrough;
    mode = o.mode;
    dns_mode = o.dns_mode;
    dns_cache_ttl = dns_cache_ttl;
    num_records = num_records;
    num_segments = num_segments;
    wait_for_ack = o.wait_for_ack;
    oob = o.oob;
    oobex = o.oobex;
    minor_ver = o.minor_ver;
    send_interval = send_interval;
    fake_sleep = fake_sleep;
    fake_ttl = optional pos o.fake_ttl;
    max_ttl = max_ttl;
    attempts = attempts;
    single_timeout = single_timeout;
    ttl_cache_ttl = ttl_cache_ttl;
  })
