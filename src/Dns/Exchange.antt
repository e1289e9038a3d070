-- ===== src/Dns/Exchange.antt =====
-- internal/core/dns.go: the loop of `ExchangeWithConnContext`, which reads responses until the
-- genuine one. What `ReadMsg` answers is a list; durations are counted from the request.
pub mod Genuine
use enimul.Common.{
  ℕ, Bool, true, false, not, ◌&&◌, ◌||◌, Option, none, some, List, [], ◌∷◌, ltb, leb, ◌==◌,
  if◌then◌else◌,
}

-- A response that `ReadMsg` returned: its id, how many records it has in its three sections, and
-- whether it has an EDNS0 subnet.
pub record Reply : Type 0 where
  pub id : ℕ
  pub record_count : ℕ
  pub has_subnet : Bool

-- `reply` is `none` for an error of `ReadMsg`, which its deadline makes.
pub record Read : Type 0 where
  pub reply : Option Reply
  pub elapsed : ℕ

-- The request and the client's settings; 0 is a setting that is not given.
pub record Request : Type 0 where
  pub id : ℕ
  pub has_subnet : Bool
  pub wait_timeout : ℕ
  pub min_rtt : ℕ

-- What the exchange returns; `blocked` waits for a further read.
pub data Exchanged : Type 0 where
  response : Reply → Exchanged
  read_error blocked : Exchanged

-- `bestR` where it is set, else `r` with `lastErr`, which is nil behind a reply.
unfoldable pub conclude : Option Reply → Option Reply → Exchanged
conclude (some best) r = response best
conclude none (some r) = response r
conclude none none = read_error

-- `bestR` and `bestRecordCount`, which is 0 before there is one.
unfoldable pub better : Option Reply → Reply → Option Reply
better none r = some r
better (some best) r = if leb best.record_count r.record_count then some r else some best

-- The loop; a reply of another id does not touch `bestR`.
unfoldable pub exchange_loop : Request → Option Reply → List Read → Exchanged
unfolding conclude better
exchange_loop q best [] = blocked
exchange_loop q best (read ∷ reads) = elim read.reply [
  | none ↦ conclude best none
  | some r ↦
      if not (q.min_rtt == 0) && ltb read.elapsed q.min_rtt
      then exchange_loop q best reads
      else if r.id == q.id && (q.wait_timeout == 0 || (q.has_subnet && r.has_subnet))
      then response r
      else let best' = if r.id == q.id then better best r else best in
        if ltb 0 q.wait_timeout && leb q.wait_timeout read.elapsed
        then conclude best' (some r)
        else exchange_loop q best' reads
]
