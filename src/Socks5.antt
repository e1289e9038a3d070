-- ===== src/Socks5.antt =====
-- internal/core/socks5.go: the handler of a SOCKS5 connection, up to the tunnel that it starts.
pub mod Request
pub mod Replies
pub mod Opening
mod Tests
use enimul.Common.{
  ℕ, zero, suc, ◌+◌, ◌*◌, ◌%◌, ◌^◌, ◌-◌, Bool, true, false, not, ◌&&◌, ◌||◌, Option, none, some,
  List, [], ◌∷◌, ◌++◌, ◌==◌, leb, ltb, if◌then◌else◌, Bytes, take, drop, length, get_elem?,
  contains_byte, ◌≡◌, refl,
}
use enimul.Common.Int.{ℤ, pos, negsuc}
use enimul.Outcome.{Outcome, ok, failed, panic}
use enimul.Jsonx.{is_true}
use enimul.Dst.{Dst}
use enimul.Policy.{Policy, is_0, is_unset_int}
use enimul.Routing.Evaluator.{
  Evaluator, Generated, chosen, gave_up, blocked, domain_not_found, gen_policy,
}
use enimul.Tunnel.{Event, dialed, Session}

-- What the handler depends on: whether a write to the client succeeds, by its number, and whether a
-- connection is made; the texts of `net.IP` and of a port.
pub record Env : Type 0 where
  pub evaluator : Evaluator
  pub write : ℕ → Bool
  pub dial : Dst → Bytes → Policy → Bool
  pub show_ip : Bytes → Bytes
  pub show_port : ℕ → Bytes

-- The client's connection: what it sends, and what was written to it.
pub record Client : Type 0 where
  pub input : Bytes
  pub replies : List Bytes

-- A step goes on, closes the connection, or panics.
pub data Step {ℓ} (A : Type ℓ) : Type ℓ where
  crash : Step A
  quit : Client → Step A
  next : Client → A → Step A

infixl 5 ◌>>=◌
abbrev pub ◌>>=◌ {ℓ κ} : {A : Type ℓ} {B : Type κ} → Step A → (Client × A → Step B) → Step B
crash >>= k = crash
quit c >>= k = quit c
next c a >>= k = k (c, a)

-- `socks5NoAuthReply`, and the replies to a request by their second byte.
abbrev pub no_auth_reply : Bytes
no_auth_reply = 5 ∷ 0 ∷ []

abbrev pub reply_of : ℕ → Bytes
reply_of code = 5 ∷ code ∷ 0 ∷ 1 ∷ 0 ∷ 0 ∷ 0 ∷ 0 ∷ 0 ∷ 0 ∷ []

-- `readN`
unfoldable pub read_n : ℕ → Client → Step Bytes
read_n n c =
    if leb n (length c.input)
    then next (record c { input = drop n c.input }) (take n c.input)
    else quit c

abbrev pub byte_at : Bytes → ℕ → ℕ
byte_at bs i = elim (get_elem? bs i) [ some b ↦ b | none ↦ 0 ]

-- `sendReply`, and the write of the method's reply.
unfoldable pub send_reply : Env → Bytes → Client → Step (Unit {0})
send_reply env reply c =
    if env.write (length c.replies)
    then next (record c { replies = c.replies ++ reply ∷ [] }) tt
    else quit c

-- A reply in front of a `return`.
abbrev pub quit_with : {A : Type 0} → Env → ℕ → Client → Step A
quit_with env code c = send_reply env (reply_of code) c >>= λ sent. quit sent.0

abbrev pub require : Bool → Client → Step (Unit {0})
require good c = if good then next c tt else quit c

-- The choice of the method.
unfoldable pub choose_method : Env → Client → Step (Unit {0})
unfolding read_n send_reply contains_byte
choose_method env c = do
  header ← read_n 2 c
  fifth ← require (byte_at header.1 0 == 5) header.0
  methods ← read_n (byte_at header.1 1) fifth.0
  open_to_all ← require (contains_byte 0 methods.1) methods.0
  send_reply env no_auth_reply open_to_all.0

-- The switch on the type of the address: its text, and whether it is an IP address.
unfoldable pub read_address : Env → ℕ → Client → Step (Bytes × Bool)
unfolding read_n send_reply
read_address env kind c =
    if kind == 1
    then (read_n 4 c >>= λ ip. next ip.0 (env.show_ip ip.1, true))
    else if kind == 4
    then (read_n 16 c >>= λ ip. next ip.0 (env.show_ip ip.1, true))
    else if kind == 3
    then (do
      count ← read_n 1 c
      sized ← require (not (byte_at count.1 0 == 0) && leb (byte_at count.1 0) 253) count.0
      name ← read_n (byte_at count.1 0) sized.0
      next name.0 (name.1, false))
    else quit_with env 8 c

-- `uint16(policy.Port)`
abbrev pub port_of : ℤ → ℕ
port_of (pos n) = n % 2 ^ 16
port_of (negsuc n) = (2 ^ 16 - 1 - n % 2 ^ 16) % 2 ^ 16

-- From the policy on: the port, the connection and the reply.
unfoldable pub open_tunnel : Env → Bytes → Dst → Policy → Client → Step Session
unfolding read_n send_reply is_true
open_tunnel env host dst p c = do
  bytes ← read_n 2 c
  let asked = byte_at bytes.1 0 * 256 + byte_at bytes.1 1
  let port =
      env.show_port
        (if not (is_0 p.port) && not (is_unset_int p.port) then port_of p.port else asked)
  let late = is_true p.reply_first
  dialing ← (if late || env.dial dst port p then next bytes.0 tt else quit_with env 1 bytes.0)
  replied ← send_reply env (reply_of 0) dialing.0
  next replied.0 (record {
    policy = p;
    dst_conn = if late then none else some 0;
    target = dst;
    origin_host = host;
    origin_port = env.show_port asked;
    port = port;
    from_sni_proxy = false;
    dials = if late then 0 else 1;
    log = if late then [] else dialed dst port 0 ∷ [];
  })

-- What follows from `genPolicy`. With no policy for the name, which is not asked for here, the nil
-- policy would be read.
unfoldable pub by_policy : Env → Bytes → Client → Outcome Generated → Step Session
unfolding open_tunnel send_reply
by_policy env host c panic = crash
by_policy env host c (failed e) = quit c
by_policy env host c (ok gave_up) = quit_with env 1 c
by_policy env host c (ok blocked) = quit_with env 2 c
by_policy env host c (ok domain_not_found) = crash
by_policy env host c (ok (chosen dst p)) = open_tunnel env host dst p c

-- `socks5Handler`: the session that it gives to `handleTunnel`.
unfoldable pub socks5_handler : Env → Bytes → Step Session
unfolding choose_method read_n read_address by_policy gen_policy send_reply
socks5_handler env input = do
  greeted ← choose_method env (record { input = input; replies = [] })
  header ← read_n 4 greeted.0
  fifth ← require (byte_at header.1 0 == 5) header.0
  connecting ← (if byte_at header.1 1 == 1 then next fifth.0 tt else quit_with env 7 fifth.0)
  address ← read_address env (byte_at header.1 3) connecting.0
  by_policy env address.1.0 address.0 (gen_policy env.evaluator address.1.0 address.1.1 false)

-- What is known of two steps that went on.
pub >>=-eq-next {ℓ κ} :
    {A : Type ℓ} {B : Type κ} (first : Step A) (k : Client × A → Step B) {c : Client} {b : B}
    → (first >>= k) ≡ next c b
    → (u : Client) × (a : A) × (first ≡ next u a) × (k (u, a) ≡ next c b)
>>=-eq-next crash k h = cc
>>=-eq-next (quit u) k h = cc
>>=-eq-next (next u a) k h = (u, a, refl, h)
