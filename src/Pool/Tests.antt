-- ===== src/Pool/Tests.antt =====
-- A pool of two addresses: its creation, a scan and the turns of `Get`, with the theorems at them.
use enimul.Common.{
  ℕ, ◌<◌, ◌≤◌, length, false, none, some, List, [], ◌∷◌, ◌≡◌, refl, arith, Bytes, bytes_eq,
  if◌then◌else◌, ◌==◌,
}
use enimul.Common.Int.{pos}
use enimul.Outcome.{ok}
use enimul.Outcome.Ensures.{Ensures}
use enimul.Netip.{Addr, v4}
use enimul.Dst.{Dst, new_single_dst}
use enimul.Builder.Options.{IpPoolOptions}
use enimul.Pool.Listing.{max_ip_pool_size, Env, exclude_all, parse_ip_list}
use enimul.Fragment.Split.{All}
use enimul.Pool.Listing.Excludes.{Avoids}
use enimul.Pool.Listing.Bounds.{parse_ip_list-Allowed}
use enimul.Pool.Creation.{IpPool, new_ip_pool}
use enimul.Pool.Creation.Checks.{IsBounded, new_ip_pool-IsBounded}
use enimul.Pool.Ranking.{IpResult, update_best, sum}
use enimul.Pool.Ranking.Ready.{IsReady, HoldsBest, update_best_lem}
use enimul.Pool.Choice.Turns.{call, call-get_elem?}

-- "a" is an address, "n" a network of four.
abbrev env : Env
env = record {
  parsers = record {
    parse_addr = λ s. if bytes_eq s (b'a' ∷ []) then some (v4 9) else none;
    parse_prefix =
        λ s. if bytes_eq s (b'n' ∷ []) then some (record { addr = v4 4; bits = 30 }) else none;
  };
  lookup_ip = λ s. none;
}

abbrev names : List Bytes
names = (b'a' ∷ b'|' ∷ b'n' ∷ []) ∷ []

listed : parse_ip_list env names [] ≡ ok (v4 9 ∷ v4 4 ∷ v4 5 ∷ v4 6 ∷ v4 7 ∷ [])
unfolding parse_ip_list bytes_eq
listed = refl

listed_but_one : parse_ip_list env names ((b'a' ∷ []) ∷ []) ≡ ok (v4 4 ∷ v4 5 ∷ v4 6 ∷ v4 7 ∷ [])
unfolding parse_ip_list bytes_eq
listed_but_one = refl

parse_ip_list-Allowed_example :
    Ensures
      (λ (ips : List Addr).
        (length ips ≤ max_ip_pool_size) × All (λ ip. All (Avoids env ip) ((b'a' ∷ []) ∷ [])) ips)
      (parse_ip_list env names ((b'a' ∷ []) ∷ []))
unfolding exclude_all
parse_ip_list-Allowed_example =
    parse_ip_list-Allowed env names ((b'a' ∷ []) ∷ []) (((b'a' ∷ []) ∷ (b'n' ∷ []) ∷ [], refl), tt)
      (((b'a' ∷ []) ∷ [], refl), tt)

abbrev options : IpPoolOptions
options = record {
  wait_scan_on_startup = false;
  multi = false;
  fallback_ip = new_single_dst (b'f' ∷ []);
  ips = names;
  excluded_ips = [];
  port = 443;
  top_ip_count = pos 2;
  max_concurrency = pos 0;
  timeout = [];
  update_interval = [];
  attempts = pos 0;
}

new_ip_pool-IsBounded_example :
    Ensures (λ (p : IpPool). IsBounded p × IsReady p) (new_ip_pool env (λ s. none) options)
unfolding exclude_all
new_ip_pool-IsBounded_example =
    new_ip_pool-IsBounded env (λ s. none) options (((b'a' ∷ []) ∷ (b'n' ∷ []) ∷ [], refl), tt) tt

abbrev fresh_pool : IpPool
fresh_pool = record {
  wait_scan_on_startup = false;
  multi = false;
  ips = v4 9 ∷ v4 4 ∷ v4 5 ∷ [];
  fallback_ip = new_single_dst (b'f' ∷ []);
  port = 443;
  top_ip_count = 2;
  attempts = 4;
  timeout = pos 1000000000;
  update_interval = pos 1800000000000;
  best_indexes = 0 ∷ 0 ∷ [];
  best_weights = 0 ∷ 0 ∷ [];
  total_weight = 0;
  cur_valid_ips = 0;
  concurrency = 100;
  counter = 0;
}

fresh_pool-IsReady : IsReady fresh_pool
unfolding sum
fresh_pool-IsReady = omega arith

abbrev lossy : IpResult
lossy = record { ip_index = 0; latency = 5; failures = 1 }

abbrev slow : IpResult
slow = record { ip_index = 1; latency = 50; failures = 0 }

abbrev fast : IpResult
fast = record { ip_index = 2; latency = 10; failures = 0 }

abbrev weight : IpResult → ℕ
weight r = if r.latency == 10 then 2 else 1

update_best_lem_example :
    (p' : IpPool) × (update_best weight fresh_pool (lossy ∷ slow ∷ fast ∷ []) ≡ ok p')
    × IsReady p'
    × HoldsBest weight fresh_pool (lossy ∷ slow ∷ fast ∷ []) p'
update_best_lem_example =
    update_best_lem weight fresh_pool lossy (slow ∷ fast ∷ []) fresh_pool-IsReady (omega arith)

abbrev scanned : IpPool
scanned = record fresh_pool {
  best_indexes = 2 ∷ 1 ∷ [];
  best_weights = 2 ∷ 1 ∷ [];
  total_weight = 3;
  cur_valid_ips = 2;
}

scanned_lem : update_best weight fresh_pool (lossy ∷ slow ∷ fast ∷ []) ≡ ok scanned
unfolding update_best
scanned_lem = refl

scanned-IsReady : IsReady scanned
unfolding sum
scanned-IsReady = omega arith

-- A stand-in for the text of an address.
abbrev text : Addr → Bytes
text (v4 a) = a ∷ []
text _ = []

call-get_elem?_example :
    (j : ℕ) × (j < 3) × (call text j scanned ≡ ok (new_single_dst (text (v4 4))))
call-get_elem?_example =
    call-get_elem? text scanned scanned-IsReady (λ e. cc) refl 1 1 (v4 4) (omega arith) refl refl
