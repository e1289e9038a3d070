-- ===== src/Socks5/Opening.antt =====
-- When the SOCKS5 handler starts a tunnel, and for what.
use enimul.Common.{
  ◌+◌, ◌*◌, Bool, true, false, not, ◌&&◌, ◌||◌, none, some, List, [], ◌∷◌, ◌++◌, ◌==◌,
  if◌then◌else◌, Bytes, length, ◌≡◌, refl, sym, ap, ◌∙◌, subst, inl, inr, Bool-cases, not,
}
use enimul.Outcome.{Outcome, ok, failed, panic}
use enimul.Jsonx.{is_true}
use enimul.Dst.{Dst}
use enimul.Policy.{Policy, is_0, is_unset_int}
use enimul.Routing.Evaluator.{Generated, chosen, gave_up, blocked, domain_not_found, gen_policy}
use enimul.Tunnel.{Session}
use enimul.Socks5.Replies.{
  read_n-replies, send_reply-replies, choose_method-replies, read_address-replies,
}
use enimul.Socks5.Request.{
  next_injective, require-eq-next, quit_with-ne-next, connect_only, connect_only-eq-next, Requests,
  read_n-input, four, is_byte, choose_method-input, read_address-Took,
}
use enimul.Socks5.{
  Env, Client, next, >>=-eq-next, no_auth_reply, reply_of, read_n, byte_at, send_reply, quit_with,
  require, choose_method, read_address, port_of, open_tunnel, by_policy, socks5_handler,
}

-- The session of a chosen policy, and what the client was told before.
abbrev pub Opens : Env → Dst → Policy → List Bytes → Client → Session → Type 0
Opens env dst p before c ts =
    (ts.policy ≡ p)
    × (ts.target ≡ dst)
    × (ts.dst_conn ≡ (if is_true p.reply_first then none else some 0))
    × ((is_true p.reply_first || env.dial dst ts.port p) ≡ true)
    × (c.replies ≡ before ++ reply_of 0 ∷ [])

open_tunnel-Opens :
    (env : Env) (host : Bytes) (dst : Dst) (p : Policy) (c u : Client) (ts : Session)
    → open_tunnel env host dst p c ≡ next u ts
    → Opens env dst p c.replies u ts × (ts.origin_host ≡ host)
unfolding open_tunnel
open_tunnel-Opens env host dst p c u ts h =
    let (u1, bytes, e1, h1) = >>=-eq-next (read_n 2 c) _ h in
    let asked = byte_at bytes 0 * 256 + byte_at bytes 1 in
    let port =
      env.show_port
        (if not (is_0 p.port) && not (is_unset_int p.port) then port_of p.port else asked) in
    elim (Bool-cases (is_true p.reply_first || env.dial dst port p)) [
      | inr y ↦
          let (u2, _, e2, _) =
            >>=-eq-next
              (if is_true p.reply_first || env.dial dst port p
                then next u1 tt
                else quit_with {A = Unit {0}} env 1 u1)
              _ h1 in
          absurd (quit_with-ne-next env 1 u1 u2 tt (rw y at e2))
      | inl y ↦
          let (u2, _, e2, h2) =
            >>=-eq-next
              (if is_true p.reply_first || env.dial dst port p
                then next u1 tt
                else quit_with {A = Unit {0}} env 1 u1)
              _ h1 in
          let (u3, _, e3, h3) = >>=-eq-next (send_reply env (reply_of 0) u2) _ h2 in
          let (same_c, same_ts) = next_injective h3 in
          let same_u : u1 ≡ u2 = (next_injective (rw y at e2)).0 in
          let told : u.replies ≡ c.replies ++ reply_of 0 ∷ [] =
            ap (λ t. t.replies) (sym same_c)
            ∙ send_reply-replies env (reply_of 0) u2 u3 e3
            ∙ ap (λ t. t.replies ++ reply_of 0 ∷ []) (sym same_u)
            ∙ ap (λ l. l ++ reply_of 0 ∷ []) (read_n-replies 2 c u1 bytes e1) in
          (
            (
              ap (λ t. t.policy) (sym same_ts),
              ap (λ t. t.target) (sym same_ts),
              ap (λ t. t.dst_conn) (sym same_ts),
              ap (λ t. is_true p.reply_first || env.dial dst t.port p) (sym same_ts) ∙ y,
              told,
            ),
            ap (λ t. t.origin_host) (sym same_ts),
          )
    ]

by_policy-Opens :
    (env : Env) (host : Bytes) (c u : Client) (ts : Session) (found : Outcome Generated)
    → by_policy env host c found ≡ next u ts
    → (dst : Dst) × (p : Policy) × (found ≡ ok (chosen dst p))
      × Opens env dst p c.replies u ts
      × (ts.origin_host ≡ host)
unfolding by_policy
by_policy-Opens env host c u ts panic h = cc
by_policy-Opens env host c u ts (failed e) h = cc
by_policy-Opens env host c u ts (ok gave_up) h = absurd (quit_with-ne-next env 1 c u ts h)
by_policy-Opens env host c u ts (ok blocked) h = absurd (quit_with-ne-next env 2 c u ts h)
by_policy-Opens env host c u ts (ok domain_not_found) h = cc
by_policy-Opens env host c u ts (ok (chosen dst p)) h =
    let (opens, same) = open_tunnel-Opens env host dst p c u ts h in (dst, p, refl, opens, same)

-- The bytes of the steps up to the address together.
requested :
    (env : Env) (input : Bytes) (u1 u2 u3 u4 u5 : Client) (header : Bytes) (address : Bytes × Bool)
    → choose_method env (record { input = input; replies = [] }) ≡ next u1 tt
    → read_n 4 u1 ≡ next u2 header
    → require (byte_at header 0 == 5) u2 ≡ next u3 tt
    → connect_only env header u3 ≡ next u4 tt
    → read_address env (byte_at header 3) u4 ≡ next u5 address
    → Requests env input address.0 address.1
requested env input u1 u2 u3 u4 u5 header address e1 e2 e3 e4 e5 =
    let (methods, free, greeted) =
      choose_method-input env (record { input = input; replies = [] }) u1 e1 in
    let (in2, len2) = read_n-input 4 u1 u2 header e2 in
    let (same3, five) = require-eq-next (byte_at header 0 == 5) u2 u3 e3 in
    let (same4, connects) = connect_only-eq-next env header u3 u4 e4 in
    let (wire, in5, is) = read_address-Took env (byte_at header 3) u4 u5 address e5 in
    let reserved = byte_at header 2 in
    let kind = byte_at header 3 in
    let asked : u1.input ≡ 5 ∷ 1 ∷ reserved ∷ kind ∷ wire ++ u5.input =
      in2
      ∙ ap (λ t. t ++ u2.input) (four header len2)
      ∙ ap (λ b. b ∷ byte_at header 1 ∷ reserved ∷ kind ∷ u2.input) (is_byte _ 5 five)
      ∙ ap (λ b. 5 ∷ b ∷ reserved ∷ kind ∷ u2.input) (is_byte _ 1 connects)
      ∙ ap (λ t. 5 ∷ 1 ∷ reserved ∷ kind ∷ t.input) (same3 ∙ same4)
      ∙ ap (λ t. 5 ∷ 1 ∷ reserved ∷ kind ∷ t) in5 in
    record {
      methods = methods;
      reserved = reserved;
      kind = kind;
      address = wire;
      rest = u5.input;
      open_to_all = free;
      asked = is;
      on_wire = greeted ∙ ap (λ t. 5 ∷ length methods ∷ methods ++ t) asked;
    }

-- Where the SOCKS5 handler gives a session to the tunnel: the client offered the method without
-- authentication and asked for a connection to the session's host, by an IPv4 address, an IPv6
-- address or a name; `genPolicy` chose the target and the policy for that host; there is a connection, which was made, exactly where the
-- policy has no `reply_first`; and the client was told just the method and then the success.
pub socks5_handler-Opens :
    (env : Env) (input : Bytes) (c : Client) (ts : Session)
    → socks5_handler env input ≡ next c ts
    → (is_ip : Bool) × Requests env input ts.origin_host is_ip
      × (dst : Dst) × (p : Policy) × (gen_policy env.evaluator ts.origin_host is_ip false
          ≡ ok (chosen dst p))
      × Opens env dst p (no_auth_reply ∷ []) c ts
unfolding socks5_handler
socks5_handler-Opens env input c ts h =
    let start : Client = record { input = input; replies = [] } in
    let (u1, _, e1, h1) = >>=-eq-next (choose_method env start) _ h in
    let (u2, header, e2, h2) = >>=-eq-next (read_n 4 u1) _ h1 in
    let (u3, _, e3, h3) = >>=-eq-next (require (byte_at header 0 == 5) u2) _ h2 in
    let (u4, _, e4, h4) = >>=-eq-next (connect_only env header u3) _ h3 in
    let (u5, address, e5, h5) = >>=-eq-next (read_address env (byte_at header 3) u4) _ h4 in
    let (dst, p, found, opens, same) =
      by_policy-Opens env address.0 u5 c ts (gen_policy env.evaluator address.0 address.1 false)
        h5 in
    let told : u5.replies ≡ no_auth_reply ∷ [] =
      read_address-replies env (byte_at header 3) u4 u5 address e5
      ∙ ap (λ t. t.replies) (sym (connect_only-eq-next env header u3 u4 e4).0)
      ∙ ap (λ t. t.replies) (sym (require-eq-next _ u2 u3 e3).0)
      ∙ read_n-replies 4 u1 u2 header e2
      ∙ choose_method-replies env start u1 e1 in
    (
      address.1,
      subst (λ t. Requests env input t address.1) (sym same)
          (requested env input u1 u2 u3 u4 u5 header address e1 e2 e3 e4 e5),
      dst,
      p,
      subst (λ t. gen_policy env.evaluator t address.1 false ≡ ok (chosen dst p)) (sym same) found,
      subst (λ l. Opens env dst p l c ts) told opens,
    )
