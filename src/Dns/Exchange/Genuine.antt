-- ===== src/Dns/Exchange/Genuine.antt =====
-- The response that the exchange returns is one to the request.
use enimul.Common.{
  ◌<◌, false, not, ◌&&◌, ◌||◌, Option, none, some, List, [], ◌∷◌, ◌≡◌, ◌⊎◌, inl, inr, arith, ltb,
  leb, ◌==◌, if◌then◌else◌, Bool-cases, Option-cases,
}
use enimul.Dns.Exchange.{
  Reply, Read, Request, Exchanged, response, read_error, blocked, conclude, better, exchange_loop,
}

-- The reads that return a reply do so before the deadline that `wait_timeout` sets.
abbrev pub InTime : Request → List Read → Type 0
InTime q [] = Unit
InTime q (read ∷ reads) =
    ((read.reply ≡ none) ⊎ ((q.wait_timeout ≡ 0) ⊎ (read.elapsed < q.wait_timeout)))
    × InTime q reads

-- A result that is a reply has the id of the request.
pub data Genuine (q : Request) : Exchanged → Type 0 where
  genuine : {r : Reply} → r.id ≡ q.id → Genuine q (response r)
  failed_read : Genuine q read_error
  waiting : Genuine q blocked

abbrev IsBest : Request → Option Reply → Type 0
IsBest q none = Unit
IsBest q (some r) = r.id ≡ q.id

conclude-Genuine :
    (q : Request) (best : Option Reply) → IsBest q best → Genuine q (conclude best none)
unfolding conclude
conclude-Genuine q none h = failed_read
conclude-Genuine q (some r) h = genuine h

better-IsBest :
    (q : Request) (best : Option Reply) (r : Reply)
    → IsBest q best
    → r.id ≡ q.id
    → IsBest q (better best r)
unfolding better
better-IsBest q none r h e = e
better-IsBest q (some b) r h e = elim (Bool-cases (leb b.record_count r.record_count)) [
  | inl y ↦ rw (y, better) e
  | inr y ↦ rw (y, better) h
]

if-IsBest :
    (q : Request) (best : Option Reply) (r : Reply)
    → IsBest q best
    → IsBest q (if r.id == q.id then better best r else best)
if-IsBest q best r h = elim (Bool-cases (r.id == q.id)) [
  | inl y ↦ rw y (better-IsBest q best r h (ground arith))
  | inr y ↦ rw y h
]

loop-Genuine :
    (q : Request) (best : Option Reply) (reads : List Read)
    → IsBest q best
    → InTime q reads
    → Genuine q (exchange_loop q best reads)
unfolding exchange_loop
loop-Genuine q best [] h t = waiting
loop-Genuine q best (read ∷ reads) h (t, ts) = elim (Option-cases read.reply) [
  | inl e ↦ rw (e, exchange_loop) (conclude-Genuine q best h)
  | inr (r, e) ↦ elim (Bool-cases (not (q.min_rtt == 0) && ltb read.elapsed q.min_rtt)) [
    | inl early ↦ rw (e, exchange_loop) (rw early (loop-Genuine q best reads h ts))
    | inr kept ↦
        elim (Bool-cases
          (r.id == q.id && (q.wait_timeout == 0 || (q.has_subnet && r.has_subnet)))) [
            | inl y ↦ rw (e, exchange_loop) (rw (kept, y) (genuine (ground arith)))
            | inr y ↦
                let before : (ltb 0 q.wait_timeout && leb q.wait_timeout read.elapsed) ≡ false =
                  in_time r e in
                rw (e, exchange_loop)
                  (rw (kept, y, before)
                    (loop-Genuine q (if r.id == q.id then better best r else best) reads
                      (if-IsBest q best r h) ts))
          ]
  ]
]
  where
    in_time :
        (r : Reply)
        → read.reply ≡ some r
        → (ltb 0 q.wait_timeout && leb q.wait_timeout read.elapsed) ≡ false
    in_time r e = elim t [
      | inl none_read ↦ absurd (ground (arith, e, none_read))
      | inr (inl zero_wait) ↦ ground arith
      | inr (inr below) ↦ ground arith
    ]

-- Where each read that returns a reply does so before the deadline that `wait_timeout` sets, a
-- reply that the exchange returns has the id of the request, whatever replies of other ids came.
pub exchange_loop-Genuine :
    (q : Request) (reads : List Read) → InTime q reads → Genuine q (exchange_loop q none reads)
exchange_loop-Genuine q reads t = loop-Genuine q none reads tt t
