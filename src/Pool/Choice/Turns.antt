-- ===== src/Pool/Choice/Turns.antt =====
-- The turns of `Get` over the best addresses of a pool.
use enimul.Common.{
  ℕ, zero, suc, ◌+◌, ◌%◌, ◌^◌, ◌<◌, true, false, some, List, ◌==◌, Bytes, length, get_elem?, take,
  ◌≡◌, ◌≢◌, refl, sym, ap, ◌∙◌, arith, length-take,
}
use enimul.Outcome.{Outcome, ok, ◌>>=◌}
use enimul.Netip.{Addr}
use enimul.Dst.{Dst, new_single_dst, new_dst_from_addrs}
use enimul.Pool.Creation.{IpPool}
use enimul.Pool.Ranking.{sum}
use enimul.Pool.Ranking.Ready.{IsReady}
use enimul.Pool.Choice.{ip_at, ips_at, pick, dst_of_turn, get_turn}
use enimul.Pool.Choice.Picks.{
  cycle, get_elem?-some, All-get_elem?, length-le-sum, pick_below, pick_first,
}

module _ (to_string : Addr → Bytes) where
  -- The answer of a turn at a value of the counter.
  abbrev turn_at : IpPool → ℕ → Outcome Dst
  turn_at p c = dst_of_turn to_string p (
      pick (take p.cur_valid_ips p.best_weights) (take p.cur_valid_ips p.best_indexes) 0
        (c % p.total_weight))

  -- What `Get` answers: the fallback only where no address is known to work, the best addresses
  -- together in a pool of several, else one of the best.
  pub data Answer (p : IpPool) : Dst → Type 0 where
    none_valid : {d : Dst} → p.cur_valid_ips ≡ 0 → d ≡ p.fallback_ip → Answer p d
    together :
        {d : Dst} {addrs : List Addr}
        → p.cur_valid_ips ≢ 0
        → p.multi ≡ true
        → ips_at p.ips (take p.cur_valid_ips p.best_indexes) ≡ ok addrs
        → d ≡ new_dst_from_addrs addrs
        → Answer p d
    one :
        {d : Dst} {a : Addr} (k i : ℕ)
        → p.cur_valid_ips ≢ 0
        → p.multi ≡ false
        → get_elem? (take p.cur_valid_ips p.best_indexes) k ≡ some i
        → get_elem? p.ips i ≡ some a
        → d ≡ new_single_dst (to_string a)
        → Answer p d

  module _ (p : IpPool) (ready : IsReady p) where
    same_length :
        length (take p.cur_valid_ips p.best_weights) ≡ length (take p.cur_valid_ips p.best_indexes)
    same_length = omega (
      arith,
      length-take p.cur_valid_ips p.best_weights,
      length-take p.cur_valid_ips p.best_indexes,
    )

    -- At every value of the counter one of the best addresses has its turn.
    turn_at_one :
        (c : ℕ)
        → p.total_weight ≢ 0
        → (k : ℕ) × (i : ℕ) × (a : Addr) × (get_elem? (take p.cur_valid_ips p.best_indexes) k
            ≡ some i)
          × (get_elem? p.ips i ≡ some a)
          × (turn_at p c ≡ ok (new_single_dst (to_string a)))
    turn_at_one c some_weight =
        let below : c % p.total_weight < p.total_weight = ground arith in
        let (k, i, found, at) =
          pick_below (take p.cur_valid_ips p.best_weights) (take p.cur_valid_ips p.best_indexes) 0
            (c % p.total_weight) same_length (omega arith) (omega arith) in
        let inside =
          All-get_elem? (λ i. i < length p.ips) (take p.cur_valid_ips p.best_indexes) k
            ready.in_range at in
        let (a, is_a) = get_elem?-some p.ips i inside in
        let here : ip_at p.ips i ≡ ok a = rw (is_a, ip_at) refl in
        (
          k,
          i,
          a,
          at,
          is_a,
          ap (dst_of_turn to_string p) found
              ∙ ap (λ r. r >>= λ b. ok (new_single_dst (to_string b))) here,
        )

    total_pos : p.cur_valid_ips ≢ 0 → p.total_weight ≢ 0
    unfolding sum
    total_pos some_valid none_weight = some_valid (
        omega (
          arith,
          length-le-sum (take p.cur_valid_ips p.best_weights) ready.positive,
          length-take p.cur_valid_ips p.best_weights,
        ))

  -- The answer of the call of `Get` behind `j` others.
  unfoldable pub call : ℕ → IpPool → Outcome Dst
  unfolding get_turn
  call zero p = get_turn to_string p >>= λ turn. ok turn.0
  call (suc j) p = get_turn to_string p >>= λ turn. call j turn.1

  module _ (p : IpPool) (ready : IsReady p) (some_valid : p.cur_valid_ips ≢ 0)
      (single : p.multi ≡ false) where
    get_turn-turn_at :
        (c : ℕ) {d : Dst}
        → turn_at p c ≡ ok d
        → get_turn to_string (record p { counter = c })
          ≡ ok (d, record p { counter = (c + 1) % 2 ^ 32 })
    unfolding get_turn
    get_turn-turn_at c run =
        let valid : (p.cur_valid_ips == 0) ≡ false = ground arith in
        let some_weight = total_pos p ready some_valid in
        let weighty : (p.total_weight == 0) ≡ false = ground arith in
        rw (valid, single, weighty, get_turn) (rw run refl)

    call-turn_at :
        (j c : ℕ) → c + j < 2 ^ 32 → call j (record p { counter = c }) ≡ turn_at p (c + j)
    unfolding call
    call-turn_at zero c h =
        let (k, i, a, _, _, run) = turn_at_one p ready c (total_pos p ready some_valid) in
        let same : c + 0 ≡ c = omega arith in rw (get_turn-turn_at c run, call) (rw same (sym run))
    call-turn_at (suc j) c h =
        let (k, i, a, _, _, run) = turn_at_one p ready c (total_pos p ready some_valid) in
        let no_wrap : (c + 1) % 2 ^ 32 ≡ c + 1 = omega arith in
        let same : c + suc j ≡ c + 1 + j = omega arith in
        rw (get_turn-turn_at c run, call)
          (rw no_wrap (call-turn_at j (c + 1) (omega arith) ∙ ap (turn_at p) (sym same)))

    -- Each of the best addresses of a pool that is ready gets its turn within the next `totalWeight`
    -- calls of `Get`, where the pool gives single addresses and its 32-bit counter does not wrap
    -- round in these calls.
    pub call-get_elem? :
        (k i : ℕ) (a : Addr)
        → p.counter + p.total_weight < 2 ^ 32
        → get_elem? (take p.cur_valid_ips p.best_indexes) k ≡ some i
        → get_elem? p.ips i ≡ some a
        → (j : ℕ) × (j < p.total_weight) × (call j p ≡ ok (new_single_dst (to_string a)))
    call-get_elem? k i a no_wrap at is_a =
        let ws = take p.cur_valid_ips p.best_weights in
        let is = take p.cur_valid_ips p.best_indexes in
        let (below, found) = pick_first ws is k 0 i (same_length p ready) ready.positive at in
        let (j, soon, hit) = cycle p.counter p.total_weight (0 + sum (take k ws)) (omega arith) in
        let here : ip_at p.ips i ≡ ok a = rw (is_a, ip_at) refl in
        (
          j,
          soon,
          call-turn_at j p.counter (omega arith)
              ∙ ap (λ t. dst_of_turn to_string p (pick ws is 0 t)) hit
              ∙ ap (dst_of_turn to_string p) found
              ∙ ap (λ r. r >>= λ b. ok (new_single_dst (to_string b))) here,
        )
