-- ===== src/Pool/Creation.antt =====
-- internal/core/ippool.go: the state of a pool, and the checks of `newIPPool`.
pub mod Checks
use Prim.Native.String.{String}
use mathlib.Core.List.{filter}
use enimul.Common.{
  ℕ, zero, suc, ◌+◌, ◌-◌, ◌*◌, ◌/◌, ◌^◌, Bool, true, false, not, ◌&&◌, ◌||◌, Option, none, some,
  List, [], ◌∷◌, ◌++◌, map, ◌==◌, leb, ltb, if◌then◌else◌, Bytes, bytes_eq, length, get_elem?, take,
}
use enimul.Common.Int.{ℤ, pos, negsuc, leb_ℤ}
use enimul.Common.Result.{Error, msg, op_error, external}
use enimul.Outcome.{Outcome, ok, failed, panic, ◌>>=◌, ◌>>◌, guard}
use enimul.Netip.{Addr}
use enimul.Dst.{Dst, is_multi, is_zero, get_single}
use enimul.Builder.Options.{IpPoolOptions}
use enimul.Policy.{is_0}
use enimul.Pool.Listing.{Env, parse_ip_list, max_ip_pool_size}

-- `IPPool`. The buffered channel `sem` is its capacity; a duration is its number of nanoseconds.
pub record IpPool : Type 0 where
  pub wait_scan_on_startup : Bool
  pub multi : Bool
  pub ips : List Addr
  pub fallback_ip : Dst
  pub port : ℕ
  pub top_ip_count : ℕ
  pub attempts : ℕ
  pub timeout : ℤ
  pub update_interval : ℤ
  pub best_indexes : List ℕ
  pub best_weights : List ℕ
  pub total_weight : ℕ
  pub cur_valid_ips : ℕ
  pub concurrency : ℕ
  pub counter : ℕ

-- `defaultMaxConcurrency`, `defaultAttempts`, `defaultTopIPCount` and the two durations.
abbrev pub default_max_concurrency : ℤ
default_max_concurrency = pos 100

abbrev pub default_attempts : ℤ
default_attempts = pos 4

abbrev pub default_top_ip_count : ℤ
default_top_ip_count = pos 3

abbrev pub default_timeout : ℤ
default_timeout = pos 1000000000

abbrev pub default_update_interval : ℤ
default_update_interval = pos 1800000000000

-- The number that `uint8(i)` and `make` take of an `int` that is not negative.
abbrev pub nat_of : ℤ → ℕ
nat_of (pos n) = n
nat_of (negsuc n) = 0

abbrev pub int_or : ℤ → ℤ → ℤ
int_or default i = if is_0 i then default else i

-- `time.ParseDuration` of a text that is not empty, and only a positive duration.
unfoldable pub duration_or : (Bytes → Option ℤ) → String → Bytes → ℤ → Outcome ℤ
unfolding bytes_eq
duration_or parse_duration what s default =
    if bytes_eq s [] then ok default else elim (parse_duration s) [
      | none ↦ failed (msg what)
      | some d ↦ if leb_ℤ d (pos 0) then failed (msg what) else ok d
    ]

-- The switch on `single[:1]`.
unfoldable pub is_special : Bytes → Bool
is_special [] = false
is_special (c ∷ cs) = c == b'?' || c == b'^' || c == b'$'

unfoldable pub check_fallback : Dst → Outcome (Unit {0})
unfolding is_zero is_multi get_single is_special bytes_eq
check_fallback d =
    guard (not (is_zero d)) (msg "fallback_ip cannot be empty")
    >> (if is_multi d then ok tt else (do
      single ← get_single d
      guard (not (bytes_eq single [])) (msg "fallback_ip cannot be empty")
      guard (not (is_special single)) (msg "invalid fallback_ip")))

unfoldable pub zeros : ℕ → List ℕ
zeros zero = []
zeros (suc n) = 0 ∷ zeros n

-- `newIPPool`
unfoldable pub new_ip_pool : Env → (Bytes → Option ℤ) → IpPoolOptions → Outcome IpPool
unfolding duration_or check_fallback parse_ip_list zeros
new_ip_pool env parse_duration o = do
  guard (not (o.port == 0)) (msg "port cannot be 0 or empty")
  let concurrency = int_or default_max_concurrency o.max_concurrency
  guard (leb_ℤ (pos 1) concurrency) (msg "invalid max_concurrency")
  let attempts = int_or default_attempts o.attempts
  guard (leb_ℤ (pos 1) attempts && leb_ℤ attempts (pos 255)) (msg "invalid attempts")
  timeout ← duration_or parse_duration "invalid timeout" o.timeout default_timeout
  interval ←
      duration_or parse_duration "invalid update_interval" o.update_interval default_update_interval
  check_fallback o.fallback_ip
  ips ← parse_ip_list env o.ips o.excluded_ips
  guard (not (length ips == 0)) (msg "no valid ips after parsing")
  guard (leb (length ips) max_ip_pool_size) (msg "ip pool exceeds maximum size")
  guard (leb_ℤ o.top_ip_count (pos (length ips))) (msg "ip count less than top_ip_count")
  let top = int_or default_top_ip_count o.top_ip_count
  guard
      (is_0 o.top_ip_count
        || leb_ℤ (pos 1) top && leb_ℤ top (pos 255) && leb_ℤ top (pos (length ips)))
      (msg "invalid top_ip_count")
  ok (record {
    wait_scan_on_startup = o.wait_scan_on_startup;
    multi = o.multi;
    ips = ips;
    fallback_ip = o.fallback_ip;
    port = o.port;
    top_ip_count = nat_of top;
    attempts = nat_of attempts;
    timeout = timeout;
    update_interval = interval;
    best_indexes = zeros (nat_of top);
    best_weights = zeros (nat_of top);
    total_weight = 0;
    cur_valid_ips = 0;
    concurrency = nat_of concurrency;
    counter = 0;
  })
