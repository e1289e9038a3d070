-- ===== src/Wire.antt =====
-- A TCP connection as the source drives it: what was sent, and what the environment answers to
-- each operation. internal/core/oob_unix.go and waitack_linux.go up to their system calls.
pub mod Sends
use Prim.Native.String.{String}
use enimul.Common.{
  ℕ, ◌+◌, Bool, true, false, ◌||◌, Option, none, some, List, [], ◌∷◌, ◌++◌, if◌then◌else◌, Bytes,
}
use enimul.Common.Result.{Error, op_error}
pub use enimul.Outcome.{Outcome, ok, failed, panic}

-- `wrote bs` is `conn.Write(bs)`, `urgent bs b` the `Sendto` of `bs` and `b` with MSG_OOB, by which
-- `b` becomes the urgent byte, and `waited` is a `waitForAck`.
pub data Event : Type 0 where
  wrote : Bytes → Event
  urgent : Bytes → ℕ → Event
  waited : Event

-- The answer to the `turn`-th operation is `reply turn`: `none` is success.
pub record Conn : Type 0 where
  pub reply : ℕ → Option Error
  pub turn : ℕ
  pub sent : List Event

abbrev pub M : Type 0 → Type 0
M A = Conn → Outcome A × Conn

abbrev pub continue : {A B : Type 0} → (A → M B) → Outcome A × Conn → Outcome B × Conn
continue f (ok a, c) = f a c
continue f (failed e, c) = (failed e, c)
continue f (panic, c) = (panic, c)

infixl 5 ◌>>=◌ ◌>>◌
abbrev pub ◌>>=◌ : {A B : Type 0} → M A → (A → M B) → M B
◌>>=◌ m f c = continue f (m c)

abbrev pub ◌>>◌ : {B : Type 0} → M (Unit {0}) → M B → M B
m >> k = m >>= λ _. k

abbrev pub pure : {A : Type 0} → A → M A
pure a c = (ok a, c)

-- A computation that does not touch the connection.
abbrev pub lift : {A : Type 0} → Outcome A → M A
lift o c = (o, c)

-- One operation: it is logged if it succeeds, and else its error is wrapped.
unfoldable pub perform : (Error → Error) → Event → M (Unit {0})
perform wrap ev c = elim (c.reply c.turn) [
  | none ↦ (ok tt, record c { turn = c.turn + 1; sent = c.sent ++ ev ∷ [] })
  | some e ↦ (failed (wrap e), record c { turn = c.turn + 1 })
]

-- `conn.Write`
abbrev pub write : String → Bytes → M (Unit {0})
write op bs = perform (op_error op) (wrote bs)

-- `conn.Write` where its error is returned as it is.
abbrev pub write_bare : Bytes → M (Unit {0})
write_bare bs = perform (λ e. e) (wrote bs)

-- `sendWithOOB`
abbrev pub send_with_oob : String → Bytes → ℕ → M (Unit {0})
send_with_oob op bs b = perform (op_error op) (urgent bs b)

-- `waitForAck`: where it is enabled, the socket is asked, which may fail; else it sleeps.
unfoldable pub wait_for_ack : Bool → M (Unit {0})
unfolding perform
wait_for_ack enabled c =
    if enabled
    then perform (op_error "wait for ack") waited c
    else (ok tt, record c { sent = c.sent ++ waited ∷ [] })
