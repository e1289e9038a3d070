-- ===== src/Pool/Creation/Checks.antt =====
-- What `newIPPool` promises of the pool that it makes.
use Prim.Native.String.{String}
use enimul.Common.{
  ℕ, ◌≤◌, true, false, not, ◌&&◌, ◌||◌, Option, [], ◌==◌, leb, Bytes, bytes_eq, length, ◌≡◌, ◌≢◌,
  refl, inl, inr, arith, Bool-cases, Option-cases,
}
use enimul.Common.Int.{ℤ, pos, negsuc, leb_ℤ}
use enimul.Outcome.Ensures.{Ensures, returns, fails, Ensures-bind, Ensures-guard}
use enimul.Dst.{Dst, is_multi, is_zero, get_single}
use enimul.Fragment.Split.{All}
use enimul.Builder.Options.{IpPoolOptions}
use enimul.Policy.{is_0}
use enimul.Pool.Listing.{Env, max_ip_pool_size}
use enimul.Pool.Listing.Bounds.{Expands, parse_ip_list-Allowed}
use enimul.Pool.Creation.{
  IpPool, nat_of, int_or, default_max_concurrency, default_attempts, default_top_ip_count,
  default_timeout, default_update_interval, duration_or, is_special, check_fallback, new_ip_pool,
}
use enimul.Pool.Ranking.{sum}
use enimul.Pool.Ranking.Ready.{IsReady, length-zeros}

-- The bounds of a pool's numbers.
pub record IsBounded (p : IpPool) : Type 0 where
  pub some_ips : 1 ≤ length p.ips
  pub few_ips : length p.ips ≤ max_ip_pool_size
  pub some_top : 1 ≤ p.top_ip_count
  pub few_top : p.top_ip_count ≤ 255
  pub some_attempts : 1 ≤ p.attempts
  pub few_attempts : p.attempts ≤ 255
  pub some_concurrency : 1 ≤ p.concurrency
  pub some_port : p.port ≢ 0
  pub timeout_positive : leb_ℤ p.timeout (pos 0) ≡ false
  pub interval_positive : leb_ℤ p.update_interval (pos 0) ≡ false
  pub fallback_set : is_zero p.fallback_ip ≡ false

duration_or-positive :
    (parse_duration : Bytes → Option ℤ) (what : String) (s : Bytes) (default : ℤ)
    → leb_ℤ default (pos 0) ≡ false
    → Ensures (λ (d : ℤ). leb_ℤ d (pos 0) ≡ false) (duration_or parse_duration what s default)
unfolding duration_or
duration_or-positive parse_duration what s default h = elim (Bool-cases (bytes_eq s [])) [
  | inl y ↦ rw (y, duration_or) (returns h)
  | inr y ↦ elim (Option-cases (parse_duration s)) [
    | inl z ↦ rw (y, z, duration_or) fails
    | inr (d, z) ↦ elim (Bool-cases (leb_ℤ d (pos 0))) [
      | inl w ↦ rw (y, z, w, duration_or) fails
      | inr w ↦ rw (y, z, duration_or) (rw w (returns w))
    ]
  ]
]

check_fallback-is_zero :
    (d : Dst) → Ensures (λ (u : Unit {0}). is_zero d ≡ false) (check_fallback d)
unfolding check_fallback
check_fallback-is_zero d = Ensures-guard (not (is_zero d)) _ λ set. elim (Bool-cases (is_multi d)) [
  | inl y ↦ rw y (returns (ground arith))
  | inr y ↦
      let is_set : is_zero d ≡ false = ground arith in
      let valid : d.single_valid ≡ true = ground arith in
      rw (y, valid, get_single)
        (Ensures-guard (not (bytes_eq d.single [])) _ λ _.
          elim (Bool-cases (not (is_special d.single))) [
            | inl z ↦ rw z (returns (ground arith))
            | inr z ↦ rw z fails
          ])
]

-- The bounds that the guards of `newIPPool` test.
top_bounds :
    (t : ℤ) (n : ℕ)
    → (is_0 t
        || leb_ℤ (pos 1) (int_or default_top_ip_count t)
          && leb_ℤ (int_or default_top_ip_count t) (pos 255)
          && leb_ℤ (int_or default_top_ip_count t) (pos n))
      ≡ true
    → (1 ≤ nat_of (int_or default_top_ip_count t)) × (nat_of (int_or default_top_ip_count t) ≤ 255)
top_bounds (pos t) n h = ground arith
top_bounds (negsuc t) n h = ground arith

range_bounds :
    (i : ℤ) → (leb_ℤ (pos 1) i && leb_ℤ i (pos 255)) ≡ true → (1 ≤ nat_of i) × (nat_of i ≤ 255)
range_bounds (pos i) h = ground arith
range_bounds (negsuc i) h = ground arith

from_one : (i : ℤ) → leb_ℤ (pos 1) i ≡ true → 1 ≤ nat_of i
from_one (pos i) h = ground arith
from_one (negsuc i) h = ground arith

-- `newIPPool` ends with no panic on lists that `expandPattern` takes. The pool that it returns has
-- between 1 and `maxIPPoolSize` addresses, between 1 and 255 attempts and best addresses, a port, a
-- fallback, and positive durations and concurrency, and it is ready for `Get`.
pub new_ip_pool-IsBounded :
    (env : Env) (parse_duration : Bytes → Option ℤ) (o : IpPoolOptions)
    → All Expands o.ips
    → All Expands o.excluded_ips
    → Ensures (λ (p : IpPool). IsBounded p × IsReady p) (new_ip_pool env parse_duration o)
unfolding new_ip_pool sum
new_ip_pool-IsBounded env parse_duration o h_ips h_excluded =
    Ensures-guard (not (o.port == 0)) _ λ port.
      Ensures-guard (leb_ℤ (pos 1) (int_or default_max_concurrency o.max_concurrency)) _
        λ concurrency.
          Ensures-guard
            (leb_ℤ (pos 1) (int_or default_attempts o.attempts)
              && leb_ℤ (int_or default_attempts o.attempts) (pos 255))
            _
            λ attempts.
              Ensures-bind
                (duration_or-positive parse_duration "invalid timeout" o.timeout default_timeout
                  refl)
                λ timeout timeout_ok.
                  Ensures-bind
                    (duration_or-positive parse_duration "invalid update_interval" o.update_interval
                      default_update_interval refl)
                    λ interval interval_ok.
                      Ensures-bind (check_fallback-is_zero o.fallback_ip) λ _ fallback.
                        Ensures-bind
                          (parse_ip_list-Allowed env o.ips o.excluded_ips h_ips h_excluded)
                          λ ips allowed. Ensures-guard (not (length ips == 0)) _ λ some_ips.
                            Ensures-guard (leb (length ips) max_ip_pool_size) _ λ few_ips.
                              Ensures-guard (leb_ℤ o.top_ip_count (pos (length ips))) _ λ _.
                                Ensures-guard
                                  (is_0 o.top_ip_count
                                    || leb_ℤ (pos 1) (int_or default_top_ip_count o.top_ip_count)
                                      && leb_ℤ (int_or default_top_ip_count o.top_ip_count)
                                          (pos 255)
                                      && leb_ℤ (int_or default_top_ip_count o.top_ip_count)
                                          (pos (length ips)))
                                  _
                                  λ top.
                                    let tops = top_bounds o.top_ip_count (length ips) top in
                                    let tries =
                                      range_bounds (int_or default_attempts o.attempts) attempts in
                                    returns (
                                      record {
                                        some_ips = ground arith;
                                        few_ips = ground arith;
                                        some_top = tops.0;
                                        few_top = tops.1;
                                        some_attempts = tries.0;
                                        few_attempts = tries.1;
                                        some_concurrency =
                                            from_one
                                              (int_or default_max_concurrency o.max_concurrency)
                                              concurrency;
                                        some_port = λ e. ground arith;
                                        timeout_positive = timeout_ok;
                                        interval_positive = interval_ok;
                                        fallback_set = fallback;
                                      },
                                      record {
                                        indexes_len = length-zeros _;
                                        weights_len = length-zeros _;
                                        within = omega arith;
                                        in_range = tt;
                                        positive = tt;
                                        total = refl;
                                      },
                                    )
