-- ===== src/Tunnel.antt =====
-- internal/core/tunnel.go: the tunnel of a session, up to the copying in both directions. What the
-- network does is the parameter `env`; what is done is kept in the session's log.
pub mod Tls
pub mod Entry
mod Tests
use enimul.Common.{
  ℕ, zero, suc, ◌+◌, Bool, true, false, not, ◌&&◌, ◌||◌, Option, none, some, List, [], ◌∷◌, ◌++◌,
  if◌then◌else◌, Bytes, take, ◌≡◌, refl,
}
use enimul.Common.Int.{ℤ}
use enimul.Outcome.{Outcome, ok, failed, panic}
use enimul.Jsonx.{is_true}
use enimul.Dst.{Dst}
use enimul.Policy.{Policy}
use enimul.Routing.Evaluator.{Evaluator}

-- What a tunnel does. Connections to destinations are numbered in the order of their dialing.
pub data Event : Type 0 where
  alerted : Bytes → Event
  responded : ℤ → Option Bytes → Event
  dialed : Dst → Bytes → ℕ → Event
  closed : ℕ → Event
  sent : ℕ → Bytes → Event
  fragmented : ℕ → Policy → Bytes → Event
  desynced : ℕ → Bytes → ℤ → Event
  forwarding : ℕ → Event

-- `tunnelSession`, without the client's connection.
pub record Session : Type 0 where
  pub policy : Policy
  pub dst_conn : Option ℕ
  pub target : Dst
  pub origin_host : Bytes
  pub origin_port : Bytes
  pub port : Bytes
  pub from_sni_proxy : Bool
  pub dials : ℕ
  pub log : List Event

-- The answers of the network and of the other parts: whether a connection is made, whether a write
-- succeeds, `sendRecords` and `desyncSend` with the policy and the place of the name, `getFakeTTL`.
pub record Env : Type 0 where
  pub evaluator : Evaluator
  pub dial : Dst → Bytes → ℕ → Bool
  pub write : ℕ → Bytes → Bool
  pub send_records : ℕ → Policy → Bytes → ℤ → ℕ → Bool
  pub get_fake_ttl : Policy → ℕ → Option ℤ
  pub desync_send : ℕ → Bytes → ℤ → ℕ → ℤ → Bool
  pub show_port : ℤ → Bytes

-- A step goes on with a value, stops the tunnel (`return` with both connections closed), or crashes:
-- a panic, or the use of a connection that is nil.
pub data Flow {ℓ} (A : Type ℓ) : Type ℓ where
  crash : Flow A
  stop : Session → Flow A
  go : Session → A → Flow A

infixl 5 ◌>>=◌
abbrev pub ◌>>=◌ {ℓ κ} : {A : Type ℓ} {B : Type κ} → Flow A → (Session × A → Flow B) → Flow B
crash >>= k = crash
stop s >>= k = stop s
go s a >>= k = k (s, a)

abbrev pub note_event : Event → Session → Session
note_event e s = record s { log = s.log ++ e ∷ [] }

-- A value that may panic.
abbrev pub lift {ℓ} : {A : Type ℓ} → Session → Outcome A → Flow A
lift s panic = crash
lift s (failed e) = stop s
lift s (ok a) = go s a

-- `sendTLSAlert`: a fatal alert with the version of the ClientHello.
unfoldable pub send_tls_alert : Bytes → ℕ → Session → Session
send_tls_alert prt_ver desc s =
    note_event (alerted ((0x15 ∷ take 2 prt_ver) ++ 0 ∷ 2 ∷ 2 ∷ desc ∷ [])) s

-- `tlsAlertAccessDenied` and `tlsAlertProtocolVersion`
abbrev pub access_denied : ℕ
access_denied = 70

abbrev pub protocol_version : ℕ
protocol_version = 49

-- `checkTLS13Only`
unfoldable pub check_tls13_only : Bool → Policy → Bytes → Session → Flow (Unit {0})
unfolding send_tls_alert is_true
check_tls13_only is_tls13 p prt_ver s =
    if not is_tls13 && is_true p.tls13_only
    then stop (send_tls_alert prt_ver protocol_version s)
    else go s tt

-- `s.dialer.DialTimeout`: the number of the new connection, if it is made.
unfoldable pub dial_timeout : Env → Dst → Bytes → Session → Session × Option ℕ
dial_timeout env dst port s = (
  record s { dials = s.dials + 1; log = s.log ++ dialed dst port s.dials ∷ [] },
  if env.dial dst port s.dials then some s.dials else none,
)

-- `if ts.dstConn == nil { ts.dstConn, err = … }`: the connection, or the session where none is made.
unfoldable pub connect : Env → Session → Flow ℕ
unfolding dial_timeout
connect env s = elim s.dst_conn [
  | some c ↦ go s c
  | none ↦
      let (s', made) = dial_timeout env s.target s.port s in
      elim made [ none ↦ stop s' | some c ↦ go (record s' { dst_conn = some c }) c ]
]

-- A write to a destination, and a stop where it fails.
unfoldable pub write_conn : Env → ℕ → Bytes → Session → Flow (Unit {0})
write_conn env c bytes s = if env.write c bytes then go (note_event (sent c bytes) s) tt else stop s

-- What is known of two steps that went on.
pub >>=-eq-go {ℓ κ} :
    {A : Type ℓ} {B : Type κ} (first : Flow A) (next : Session × A → Flow B) {s : Session} {b : B}
    → (first >>= next) ≡ go s b
    → (u : Session) × (a : A) × (first ≡ go u a) × (next (u, a) ≡ go s b)
>>=-eq-go crash next h = cc
>>=-eq-go (stop u) next h = cc
>>=-eq-go (go u a) next h = (u, a, refl, h)
