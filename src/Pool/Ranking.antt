-- ===== src/Pool/Ranking.antt =====
-- internal/core/ippool.go: the test of an address, the scan and `updateBest`. The weight of a result
-- is a parameter: the source computes it in floating point, and this is what `int` makes of it
-- before it is held between the bounds. The sum of the latencies of one test is not wrapped.
pub mod Best
pub mod Ready
use enimul.Common.{
  ℕ, zero, suc, ◌+◌, ◌-◌, ◌*◌, ◌/◌, ◌^◌, Bool, true, false, not, ◌&&◌, ◌||◌, Option, none, some,
  List, [], ◌∷◌, ◌++◌, map, ◌==◌, leb, ltb, if◌then◌else◌, length, get_elem?, take,
}
use enimul.Outcome.{Outcome, ok, failed, panic, ◌>>=◌, ◌>>◌}
use enimul.Pool.Creation.{IpPool, zeros}

-- `ipResult`. All results of a scan have the same number of attempts, so the number of the failed
-- ones stands for the loss rate.
pub record IpResult : Type 0 where
  pub ip_index : ℕ
  pub latency : ℕ
  pub failures : ℕ

-- The loop of `testIP`: the failed attempts and the sum of the latencies of the others.
unfoldable pub test_loop : (ℕ → Option ℕ) → ℕ → ℕ × ℕ
test_loop dial zero = (0, 0)
test_loop dial (suc n) =
    let (failures, total) = test_loop dial n in
    elim (dial n) [ none ↦ (suc failures, total) | some latency ↦ (failures, total + latency) ]

-- `testIP`; `dial index n` is how long the n-th attempt took, or none where it failed.
unfoldable pub test_ip : (ℕ → ℕ → Option ℕ) → ℕ → ℕ → IpResult
unfolding test_loop
test_ip dial attempts index =
    let (failures, total) = test_loop (dial index) attempts in
    let successes = attempts - failures in
    record {
      ip_index = index;
      latency = if successes == 0 then 2 ^ 63 - 1 else total / successes;
      failures = failures;
    }

-- `res.loss < 1.0`
unfoldable pub keep_valid : ℕ → List IpResult → List IpResult
keep_valid attempts [] = []
keep_valid attempts (r ∷ rs) =
    let rest = keep_valid attempts rs in if ltb r.failures attempts then r ∷ rest else rest

-- Not behind another in the comparison of `updateBest`.
abbrev pub not_worse : IpResult → IpResult → Bool
not_worse a b = ltb a.failures b.failures || a.failures == b.failures && leb a.latency b.latency

-- `slices.SortStableFunc`
unfoldable pub insert : IpResult → List IpResult → List IpResult
insert r [] = r ∷ []
insert r (s ∷ ss) = let rest = insert r ss in if not_worse r s then r ∷ s ∷ ss else s ∷ rest

unfoldable pub sort : List IpResult → List IpResult
unfolding insert
sort [] = []
sort (r ∷ rs) = insert r (sort rs)

-- `minWeight` and `maxWeight`
abbrev pub clamp_weight : ℕ → ℕ
clamp_weight w = if ltb w 1 then 1 else if ltb 10000 w then 10000 else w

unfoldable pub sum : List ℕ → ℕ
sum [] = 0
sum (n ∷ ns) = n + sum ns

-- Writes at the indexes from 0 on; behind the end it panics.
unfoldable pub overwrite : List ℕ → List ℕ → Outcome (List ℕ)
overwrite [] old = ok old
overwrite (x ∷ xs) [] = panic
overwrite (x ∷ xs) (o ∷ os) = overwrite xs os >>= λ rest. ok (x ∷ rest)

-- The loop that writes the addresses to the log.
unfoldable pub check_indexes : List ℕ → ℕ → Outcome (Unit {0})
check_indexes [] count = ok tt
check_indexes (i ∷ is) count = if ltb i count then check_indexes is count else panic

module _ (weight : IpResult → ℕ) where
  abbrev pub weight_of : IpResult → ℕ
  weight_of r = clamp_weight (weight r)

  -- `updateBest` of results that are sorted, of which it takes the first ones.
  unfoldable pub write_best : IpPool → List IpResult → Outcome IpPool
  unfolding overwrite check_indexes zeros sum
  write_best p chosen = do
    let count = length chosen
    indexes ← overwrite (map (λ r. r.ip_index) chosen) p.best_indexes
    weights ← overwrite (map weight_of chosen ++ zeros (p.top_ip_count - count)) p.best_weights
    check_indexes (take count indexes) (length p.ips)
    ok (record p {
      best_indexes = indexes;
      best_weights = weights;
      cur_valid_ips = count;
      total_weight = sum (map weight_of chosen);
    })

  -- `updateBest`
  unfoldable pub update_best : IpPool → List IpResult → Outcome IpPool
  unfolding write_best sort
  update_best p [] = ok p
  update_best p (r ∷ rs) = write_best p (take p.top_ip_count (sort (r ∷ rs)))

  -- `scan`; `arrivals` is the order in which the tests send their results.
  unfoldable pub scan : (ℕ → ℕ → Option ℕ) → List ℕ → IpPool → Outcome IpPool
  unfolding update_best keep_valid test_ip
  scan dial arrivals p =
      update_best p (keep_valid p.attempts (map (λ index. test_ip dial p.attempts index) arrivals))
