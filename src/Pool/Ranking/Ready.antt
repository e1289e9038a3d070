-- ===== src/Pool/Ranking/Ready.antt =====
-- What `updateBest` leaves: a pool that `Get` can read, with the best results in it.
use mathlib.Core.List.{Perm, append_assoc}
use enimul.Common.{
  ℕ, zero, suc, ◌-◌, ◌≤◌, ◌<◌, min, true, List, [], ◌∷◌, ◌++◌, map, ltb, length, take, drop, ◌≡◌,
  refl, sym, ap, ◌∙◌, subst, arith, length-append, length-map, length-take, length-drop,
  take-length-append, take-append-drop,
}
use enimul.Outcome.{ok}
use enimul.Fragment.Split.{All}
use enimul.Pool.Creation.{IpPool, zeros}
use enimul.Pool.Ranking.{
  IpResult, not_worse, sort, sum, overwrite, check_indexes, weight_of, write_best, update_best,
}
use enimul.Pool.Ranking.Best.{Ranked, All-append, Ranked-append, sort-Ranked, sort-perm, All-sort}

-- The best indexes name addresses of the pool, their weights are positive and the total is their sum.
pub record IsReady (p : IpPool) : Type 0 where
  pub indexes_len : length p.best_indexes ≡ p.top_ip_count
  pub weights_len : length p.best_weights ≡ p.top_ip_count
  pub within : p.cur_valid_ips ≤ p.top_ip_count
  pub in_range : All (λ i. i < length p.ips) (take p.cur_valid_ips p.best_indexes)
  pub positive : All (λ w. 1 ≤ w) (take p.cur_valid_ips p.best_weights)
  pub total : p.total_weight ≡ sum (take p.cur_valid_ips p.best_weights)

pub length-zeros : (n : ℕ) → length (zeros n) ≡ n
unfolding zeros
length-zeros zero = refl
length-zeros (suc n) = omega (arith, length-zeros n)

overwrite-append :
    (xs old : List ℕ) → length xs ≤ length old → overwrite xs old ≡ ok (xs ++ drop (length xs) old)
unfolding overwrite
overwrite-append [] old h = refl
overwrite-append (x ∷ xs) [] h = absurd (omega arith)
overwrite-append (x ∷ xs) (o ∷ old) h = rw (overwrite-append xs old (omega arith)) refl

check_indexes_ok :
    (is : List ℕ) (count : ℕ) → All (λ i. i < count) is → check_indexes is count ≡ ok tt
unfolding check_indexes
check_indexes_ok [] count h = refl
check_indexes_ok (i ∷ is) count (h, hs) =
    let inside : ltb i count ≡ true = ground arith in
    rw (inside, check_indexes) (check_indexes_ok is count hs)

All-map :
    (P : ℕ → Type 0) (f : IpResult → ℕ) (rs : List IpResult)
    → All (λ r. P (f r)) rs
    → All P (map f rs)
All-map P f [] h = tt
All-map P f (r ∷ rs) (h, hs) = (h, All-map P f rs hs)

clamped : (weight : IpResult → ℕ) (rs : List IpResult) → All (λ r. 1 ≤ weight_of weight r) rs
clamped weight [] = tt
clamped weight (r ∷ rs) = (ground arith, clamped weight rs)

module _ (weight : IpResult → ℕ) where
  abbrev index_of : IpResult → ℕ
  index_of r = r.ip_index

  -- The first indexes and weights are those of the results.
  abbrev pub Holds : List IpResult → IpPool → Type 0
  Holds chosen p' =
      (p'.cur_valid_ips ≡ length chosen)
      × (take p'.cur_valid_ips p'.best_indexes ≡ map (λ r. r.ip_index) chosen)
      × (take p'.cur_valid_ips p'.best_weights ≡ map (weight_of weight) chosen)

  write_best_lem :
      (p : IpPool) (chosen : List IpResult)
      → IsReady p
      → length chosen ≤ p.top_ip_count
      → All (λ r. r.ip_index < length p.ips) chosen
      → (p' : IpPool) × (write_best weight p chosen ≡ ok p') × IsReady p' × Holds chosen p'
  unfolding write_best
  write_best_lem p chosen ready fits inside =
      let k = length chosen in
      let is = map (λ (r : IpResult). r.ip_index) chosen in
      let ws = map (weight_of weight) chosen in
      let len_is : length is ≡ k = length-map index_of chosen in
      let len_ws : length ws ≡ k = length-map (weight_of weight) chosen in
      let padded = ws ++ zeros (p.top_ip_count - k) in
      let len_zeros = length-zeros (p.top_ip_count - k) in
      let len_padded : length padded ≡ p.top_ip_count =
        omega (arith, length-append ws (zeros (p.top_ip_count - k))) in
      let indexes = is ++ drop (length is) p.best_indexes in
      let weights = padded ++ drop (length padded) p.best_weights in
      let first_is : take k indexes ≡ is =
        subst (λ n. take n indexes ≡ is) len_is (take-length-append is _) in
      let first_ws : take k weights ≡ ws =
        subst (λ n. take n weights ≡ ws) len_ws
          (ap (take (length ws)) (append_assoc ws (zeros (p.top_ip_count - k)) _)
            ∙ take-length-append ws _) in
      let wrote_is : overwrite is p.best_indexes ≡ ok indexes =
        overwrite-append is p.best_indexes (omega arith) in
      let wrote_ws : overwrite padded p.best_weights ≡ ok weights =
        overwrite-append padded p.best_weights (omega arith) in
      let checked : check_indexes (take k indexes) (length p.ips) ≡ ok tt = rw first_is (
        check_indexes_ok is (length p.ips)
          (All-map (λ i. i < length p.ips) index_of chosen inside)) in
      (
        record p {
          best_indexes = indexes;
          best_weights = weights;
          cur_valid_ips = k;
          total_weight = sum ws;
        },
        rw (wrote_is, wrote_ws, checked) refl,
        record {
          indexes_len = omega (
            arith,
            length-append is (drop (length is) p.best_indexes),
            length-drop (length is) p.best_indexes,
          );
          weights_len = omega (
            arith,
            length-append padded (drop (length padded) p.best_weights),
            length-drop (length padded) p.best_weights,
          );
          within = fits;
          in_range = rw first_is (All-map (λ i. i < length p.ips) index_of chosen inside);
          positive =
              rw first_ws (All-map (λ w. 1 ≤ w) (weight_of weight) chosen (clamped weight chosen));
          total = ap sum (sym first_ws);
        },
        (refl, first_is, first_ws),
      )

  -- The pool holds the best results: the chosen ones and those left are the results, each chosen one
  -- is not worse than those left, and as many are chosen as the pool takes or as there are.
  abbrev pub HoldsBest : IpPool → List IpResult → IpPool → Type 0
  HoldsBest p results p' =
      (chosen : List IpResult) × (left : List IpResult) × Perm (chosen ++ left) results
      × All (λ c. All (λ l. not_worse c l ≡ true) left) chosen
      × (length chosen ≡ min p.top_ip_count (length (chosen ++ left)))
      × Holds chosen p'

  -- `updateBest` of some results, each of an address of the pool, in a pool that is ready: it does
  -- not panic, the pool is ready again, and its first indexes and weights are those of the best
  -- results by loss and then latency, up to `topIPCount` of them.
  pub update_best_lem :
      (p : IpPool) (r : IpResult) (rs : List IpResult)
      → IsReady p
      → All (λ s. s.ip_index < length p.ips) (r ∷ rs)
      → (p' : IpPool) × (update_best weight p (r ∷ rs) ≡ ok p')
        × IsReady p'
        × HoldsBest p (r ∷ rs) p'
  unfolding update_best
  update_best_lem p r rs ready inside =
      let ranked = sort (r ∷ rs) in
      let chosen = take p.top_ip_count ranked in
      let left = drop p.top_ip_count ranked in
      let whole : chosen ++ left ≡ ranked = take-append-drop p.top_ip_count ranked in
      let all_inside =
        All-append (λ (s : IpResult). s.ip_index < length p.ips) chosen left
          (subst (All (λ s. s.ip_index < length p.ips)) (sym whole)
            (All-sort (λ s. s.ip_index < length p.ips) (r ∷ rs) inside)) in
      let count = length-take p.top_ip_count ranked in
      let (p', run, ready', holds) = write_best_lem p chosen ready (omega arith) all_inside.0 in
      (
        p',
        run,
        ready',
        (
          chosen,
          left,
          subst (λ l. Perm l (r ∷ rs)) (sym whole) (sort-perm (r ∷ rs)),
          Ranked-append chosen left (subst Ranked (sym whole) (sort-Ranked (r ∷ rs))),
          count ∙ ap (λ l. min p.top_ip_count (length l)) (sym whole),
          holds,
        ),
      )
