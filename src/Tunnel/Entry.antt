-- ===== src/Tunnel/Entry.antt =====
-- internal/core/tunnel.go and net.go: `handleTunnel` with `handleHTTP`, up to `forwardTCP`.
pub mod Unknown
use enimul.Common.{
  ℕ, zero, suc, ◌+◌, ◌*◌, Bool, true, false, not, ◌&&◌, ◌||◌, Option, none, some, List, [], ◌∷◌,
  ◌++◌, ◌==◌, leb, if◌then◌else◌, Bytes, bytes_eq, take, drop, length, has_prefix, get_elem?,
}
use enimul.Common.Int.{ℤ, pos, ◌==ℤ◌}
use enimul.Modes.{Mode, mode_raw}
use enimul.Policy.{Policy, is_0, is_unset_int}
use enimul.Tunnel.{
  Event, responded, sent, closed, forwarding, Session, Env, Flow, crash, stop, go, ◌>>=◌,
  note_event, dial_timeout, connect, write_conn,
}
use enimul.Tunnel.Tls.{handle_tls, close_old}

-- The buffered reader of the client: what it holds, and what is still to come from the connection.
pub record Reader : Type 0 where
  pub buffered : Bytes
  pub coming : Bytes

-- What `handleHTTP` reads of an `http.Request`: its hosts, `RequestURI`, and what `Write` sends.
pub record Request : Type 0 where
  pub host : Bytes
  pub url_host : Bytes
  pub request_uri : Bytes
  pub written : Bytes

-- How much of what is left a read beyond the buffer leaves in it, whether a response reaches the
-- client, and `http.ReadRequest`: a request or an error, with the reader behind it.
pub record ReadEnv : Type 0 where
  pub refill : Bytes → ℕ
  pub respond : ℤ → Bool
  pub read_request : Reader → Option Request × Reader

-- `io.ReadFull` of `n` bytes; `none` where the stream ends before.
unfoldable pub read_full : ReadEnv → ℕ → Reader → Option (Bytes × Reader)
read_full renv n r =
    if leb n (length r.buffered)
    then some (take n r.buffered, record r { buffered = drop n r.buffered })
    else let all = r.buffered ++ r.coming in
      let left = drop n all in
      if leb n (length all)
      then some (
        take n all,
        record { buffered = take (renv.refill left) left; coming = drop (renv.refill left) left },
      )
      else none

-- `bytesHasPrefix`
unfoldable pub bytes_has_prefix : Bytes → List Bytes → Bool
unfolding has_prefix
bytes_has_prefix b [] = false
bytes_has_prefix b (prefix ∷ prefixes) = has_prefix b prefix || bytes_has_prefix b prefixes

-- "GET ", "POST ", "HEAD ", "PUT ", "DELETE ", "OPTIONS ", "TRACE ", "PATCH "
abbrev pub methods : List Bytes
methods =
    (b'G' ∷ b'E' ∷ b'T' ∷ b' ' ∷ [])
    ∷ (b'P' ∷ b'O' ∷ b'S' ∷ b'T' ∷ b' ' ∷ [])
    ∷ (b'H' ∷ b'E' ∷ b'A' ∷ b'D' ∷ b' ' ∷ [])
    ∷ (b'P' ∷ b'U' ∷ b'T' ∷ b' ' ∷ [])
    ∷ (b'D' ∷ b'E' ∷ b'L' ∷ b'E' ∷ b'T' ∷ b'E' ∷ b' ' ∷ [])
    ∷ (b'O' ∷ b'P' ∷ b'T' ∷ b'I' ∷ b'O' ∷ b'N' ∷ b'S' ∷ b' ' ∷ [])
    ∷ (b'T' ∷ b'R' ∷ b'A' ∷ b'C' ∷ b'E' ∷ b' ' ∷ [])
    ∷ (b'P' ∷ b'A' ∷ b'T' ∷ b'C' ∷ b'H' ∷ b' ' ∷ [])
    ∷ []

abbrev pub first_of : Bytes → Bytes → Bytes → Bytes
first_of a b c = if bytes_eq a [] then (if bytes_eq b [] then c else b) else a

-- "https://"
abbrev pub https : Bytes
https = b'h' ∷ b't' ∷ b't' ∷ b'p' ∷ b's' ∷ b':' ∷ b'/' ∷ b'/' ∷ []

-- A response, which stops the tunnel whether it reaches the client or not.
unfoldable pub respond : ReadEnv → ℤ → Option Bytes → Session → Session
respond renv status location s =
    if renv.respond status then note_event (responded status location) s else s

-- `handleHTTP`; going on is `return true`.
unfoldable pub handle_http : Env → ReadEnv → Request → Session → Flow (Unit {0})
unfolding respond dial_timeout write_conn bytes_eq
handle_http env renv req s =
    let host = first_of req.host req.url_host s.origin_host in
    let status = s.policy.http_status in
    if not (is_0 status) && not (is_unset_int status)
    then stop (
        respond renv status
          (if status ==ℤ pos 301 || status ==ℤ pos 302
            then some (https ++ (host ++ req.request_uri))
            else none)
          s)
    else elim s.dst_conn [
      | some c ↦ write_conn env c req.written s
      | none ↦
          let dialing = dial_timeout env s.target s.port s in
          elim dialing.1 [
            | none ↦ stop (respond renv (pos 502) none dialing.0)
            | some c ↦ write_conn env c req.written (record dialing.0 { dst_conn = some c })
          ]
    ]

-- `drainBuffered`
unfoldable pub drain_buffered : Env → Reader → Session → Flow (Unit {0})
unfolding write_conn
drain_buffered env r s =
    if length r.buffered == 0
    then go s tt
    else elim s.dst_conn [ none ↦ crash | some c ↦ write_conn env c r.buffered s ]

-- `forwardTCP`, whose copying is not modelled.
unfoldable pub forward_tcp : Session → Flow (Unit {0})
forward_tcp s = elim s.dst_conn [ none ↦ crash | some c ↦ go (note_event (forwarding c) s) tt ]

-- The deferred close of both connections, where the tunnel returns before it forwards.
unfoldable pub close_here : Flow (Unit {0}) → Flow (Unit {0})
close_here crash = crash
close_here (stop s) = stop (close_old s.dst_conn s)
close_here (go s u) = go s u

unfoldable pub is_raw : Mode → Bool
is_raw mode_raw = true
is_raw _ = false

abbrev pub byte_at : Bytes → ℕ → ℕ
byte_at bs i = elim (get_elem? bs i) [ some b ↦ b | none ↦ 0 ]

-- The branches by the first bytes: the reader behind what they take.
unfoldable pub dispatch : Env → ReadEnv → Reader → Session → Flow Reader
unfolding read_full handle_tls handle_http bytes_has_prefix
dispatch env renv r s =
    if byte_at r.buffered 0 == 0x16
    then (if byte_at r.buffered 1 == 3
        then elim (read_full renv (5 + (byte_at r.buffered 3 * 256 + byte_at r.buffered 4)) r) [
          | none ↦ stop s
          | some (rec, behind) ↦ (handle_tls env rec s >>= λ done. go done.0 behind)
        ]
        else go s r)
    else if bytes_has_prefix (take 10 r.buffered) methods
    then (let parsed = renv.read_request r in
        elim parsed.0 [
          | none ↦ go s parsed.1
          | some req ↦ (handle_http env renv req s >>= λ done. go done.0 parsed.1)
        ])
    else go s r

-- `handleTunnel`; `r` is the reader after `Peek(10)`, which fails where it holds less.
unfoldable pub handle_tunnel : Env → ReadEnv → Reader → Session → Flow (Unit {0})
unfolding close_here is_raw connect dispatch drain_buffered forward_tcp
handle_tunnel env renv r s = close_here (
    if is_raw s.policy.mode
    then (connect env s >>= λ connected. forward_tcp connected.0)
    else if leb 10 (length r.buffered)
    then (do
      taken ← dispatch env renv r s
      drained ← drain_buffered env taken.1 taken.0
      forward_tcp drained.0)
    else stop s)
