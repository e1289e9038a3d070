-- ===== src/Socks5/Replies.antt =====
-- What the steps of the SOCKS5 handler write to the client.
use enimul.Common.{
  ℕ, Bool, true, false, not, ◌&&◌, [], ◌∷◌, ◌++◌, ◌==◌, leb, Bytes, length, ◌≡◌, sym, ap, ◌∙◌, inl,
  inr, Bool-cases, contains_byte, not,
}
use enimul.Socks5.Request.{next_injective, require-eq-next, quit_with-ne-next}
use enimul.Socks5.{
  Env, Client, next, ◌>>=◌, >>=-eq-next, no_auth_reply, read_n, byte_at, send_reply, require,
  choose_method, read_address,
}

pub read_n-replies :
    (n : ℕ) (c u : Client) (a : Bytes) → read_n n c ≡ next u a → u.replies ≡ c.replies
unfolding read_n
read_n-replies n c u a h = elim (Bool-cases (leb n (length c.input))) [
  | inl y ↦ ap (λ t. t.replies) (sym (next_injective (rw (y, read_n) at h)).0)
  | inr y ↦ cc (rw (y, read_n) at h)
]

pub send_reply-replies :
    (env : Env) (reply : Bytes) (c u : Client)
    → send_reply env reply c ≡ next u tt
    → u.replies ≡ c.replies ++ reply ∷ []
unfolding send_reply
send_reply-replies env reply c u h = elim (Bool-cases (env.write (length c.replies))) [
  | inl y ↦ ap (λ t. t.replies) (sym (next_injective (rw (y, send_reply) at h)).0)
  | inr y ↦ cc (rw (y, send_reply) at h)
]

pub choose_method-replies :
    (env : Env) (c u : Client)
    → choose_method env c ≡ next u tt
    → u.replies ≡ c.replies ++ no_auth_reply ∷ []
unfolding choose_method
choose_method-replies env c u h =
    let (u1, header, e1, h1) = >>=-eq-next (read_n 2 c) _ h in
    let (u2, _, e2, h2) = >>=-eq-next (require (byte_at header 0 == 5) u1) _ h1 in
    let (u3, methods, e3, h3) = >>=-eq-next (read_n (byte_at header 1) u2) _ h2 in
    let (u4, _, e4, h4) = >>=-eq-next (require (contains_byte 0 methods) u3) _ h3 in
    let same : u4.replies ≡ c.replies =
      ap (λ t. t.replies) (sym (require-eq-next _ u3 u4 e4).0)
      ∙ read_n-replies (byte_at header 1) u2 u3 methods e3
      ∙ ap (λ t. t.replies) (sym (require-eq-next _ u1 u2 e2).0)
      ∙ read_n-replies 2 c u1 header e1 in
    send_reply-replies env no_auth_reply u4 u h4 ∙ ap (λ l. l ++ no_auth_reply ∷ []) same

read_ip-replies :
    (env : Env) (n : ℕ) (c u : Client) (a : Bytes × Bool)
    → (read_n n c >>= λ ip. next ip.0 (env.show_ip ip.1, true)) ≡ next u a
    → u.replies ≡ c.replies
read_ip-replies env n c u a h =
    let (u1, bytes, e1, h1) = >>=-eq-next (read_n n c) _ h in
    ap (λ t. t.replies) (sym (next_injective h1).0) ∙ read_n-replies n c u1 bytes e1

read_name-replies :
    (c u : Client) (a : Bytes × Bool)
    → (do
      count ← read_n 1 c
      sized ← require (not (byte_at count.1 0 == 0) && leb (byte_at count.1 0) 253) count.0
      name ← read_n (byte_at count.1 0) sized.0
      next name.0 (name.1, false))
      ≡ next u a
    → u.replies ≡ c.replies
read_name-replies c u a h =
    let (u1, count, e1, h1) = >>=-eq-next (read_n 1 c) _ h in
    let (u2, _, e2, h2) =
      >>=-eq-next (require (not (byte_at count 0 == 0) && leb (byte_at count 0) 253) u1) _ h1 in
    let (u3, name, e3, h3) = >>=-eq-next (read_n (byte_at count 0) u2) _ h2 in
    ap (λ t. t.replies) (sym (next_injective h3).0)
    ∙ read_n-replies (byte_at count 0) u2 u3 name e3
    ∙ ap (λ t. t.replies) (sym (require-eq-next _ u1 u2 e2).0)
    ∙ read_n-replies 1 c u1 count e1

pub read_address-replies :
    (env : Env) (kind : ℕ) (c u : Client) (a : Bytes × Bool)
    → read_address env kind c ≡ next u a
    → u.replies ≡ c.replies
unfolding read_address
read_address-replies env kind c u a h = elim (Bool-cases (kind == 1)) [
  | inl y ↦ read_ip-replies env 4 c u a (rw (y, read_address) at h)
  | inr y ↦ elim (Bool-cases (kind == 4)) [
    | inl z ↦ read_ip-replies env 16 c u a (rw (y, z, read_address) at h)
    | inr z ↦ elim (Bool-cases (kind == 3)) [
      | inl w ↦ read_name-replies c u a (rw (y, z, w, read_address) at h)
      | inr w ↦ absurd (quit_with-ne-next env 8 c u a (rw (y, z, w, read_address) at h))
    ]
  ]
]
