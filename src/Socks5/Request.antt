-- ===== src/Socks5/Request.antt =====
-- The bytes of a SOCKS5 request, and what the handler's steps read of them.
use enimul.Common.{
  ℕ, ◌≤◌, Bool, true, false, not, ◌&&◌, [], ◌∷◌, ◌++◌, ◌==◌, leb, Bytes, drop, length, ◌≡◌, ◌≢◌,
  refl, sym, ap, ◌∙◌, subst, inl, inr, arith, if◌then◌else◌, Bool-cases, contains_byte, length-take,
  take-append-drop,
}
use enimul.Socks5.{
  Env, Client, Step, quit, next, ◌>>=◌, >>=-eq-next, no_auth_reply, reply_of, read_n, byte_at,
  send_reply, quit_with, require, choose_method, read_address,
}

pub next_injective {ℓ} :
    {A : Type ℓ} {c u : Client} {a b : A} → next c a ≡ next u b → (c ≡ u) × (a ≡ b)
next_injective h = (cc, cc)

pub require-eq-next : (b : Bool) (c u : Client) → require b c ≡ next u tt → (c ≡ u) × (b ≡ true)
require-eq-next true c u h = ((next_injective h).0, refl)
require-eq-next false c u h = cc

-- A reply in front of a `return` goes on with nothing.
pub quit_with-ne-next :
    {A : Type 0} (env : Env) (code : ℕ) (c u : Client) (a : A) → quit_with env code c ≢ next u a
quit_with-ne-next env code c u a h =
    let (v, _, _, rest) = >>=-eq-next (send_reply env (reply_of code) c) _ h in quit-ne-next rest
  where
    quit-ne-next : {B : Type 0} {v w : Client} {b : B} → quit v ≢ next w b
    quit-ne-next e = cc

-- The test of the command.
abbrev pub connect_only : Env → Bytes → Client → Step (Unit {0})
connect_only env header c = if byte_at header 1 == 1 then next c tt else quit_with env 7 c

pub connect_only-eq-next :
    (env : Env) (header : Bytes) (c u : Client)
    → connect_only env header c ≡ next u tt
    → (c ≡ u) × ((byte_at header 1 == 1) ≡ true)
connect_only-eq-next env header c u h = elim (Bool-cases (byte_at header 1 == 1)) [
  | inl y ↦ ((next_injective (rw y at h)).0, y)
  | inr y ↦ absurd (quit_with-ne-next env 7 c u tt (rw y at h))
]

-- An address on the wire behind the byte of its type: four bytes, sixteen bytes, or a name of 1 to
-- 253 bytes behind its length; the host that it stands for, and whether that is an IP address.
pub data Address (env : Env) : ℕ → Bytes → Bytes → Bool → Type 0 where
  ipv4 : (ip : Bytes) → length ip ≡ 4 → Address env 1 ip (env.show_ip ip) true
  ipv6 : (ip : Bytes) → length ip ≡ 16 → Address env 4 ip (env.show_ip ip) true
  name :
      (host : Bytes)
      → length host ≢ 0
      → length host ≤ 253
      → Address env 3 (length host ∷ host) host false

-- A greeting that offers the method without authentication, and a request to connect to a host.
pub record Requests (env : Env) (input host : Bytes) (is_ip : Bool) : Type 0 where
  pub methods : Bytes
  pub reserved : ℕ
  pub kind : ℕ
  pub address : Bytes
  pub rest : Bytes
  pub open_to_all : contains_byte 0 methods ≡ true
  pub asked : Address env kind address host is_ip
  pub on_wire : input ≡ 5 ∷ length methods ∷ methods ++ (5 ∷ 1 ∷ reserved ∷ kind ∷ address ++ rest)

-- What `readN` takes off the input.
pub read_n-input :
    (n : ℕ) (c u : Client) (a : Bytes)
    → read_n n c ≡ next u a
    → (c.input ≡ a ++ u.input) × (length a ≡ n)
unfolding read_n
read_n-input n c u a h = elim (Bool-cases (leb n (length c.input))) [
  | inl y ↦
      let (same, bytes) = next_injective (rw (y, read_n) at h) in
      (
        sym (take-append-drop n c.input)
            ∙ ap (λ t. t ++ drop n c.input) bytes
            ∙ ap (λ t. a ++ t.input) same,
        ap length (sym bytes) ∙ length-take n c.input ∙ ground (arith, y),
      )
  | inr y ↦ cc (rw (y, read_n) at h)
]

send_reply-input :
    (env : Env) (reply : Bytes) (c u : Client)
    → send_reply env reply c ≡ next u tt
    → u.input ≡ c.input
unfolding send_reply
send_reply-input env reply c u h = elim (Bool-cases (env.write (length c.replies))) [
  | inl y ↦ ap (λ t. t.input) (sym (next_injective (rw (y, send_reply) at h)).0)
  | inr y ↦ cc (rw (y, send_reply) at h)
]

one : (bs : Bytes) → length bs ≡ 1 → bs ≡ byte_at bs 0 ∷ []
one [] h = absurd (omega arith)
one (x ∷ []) h = refl
one (x ∷ y ∷ bs) h = absurd (omega arith)

two : (bs : Bytes) → length bs ≡ 2 → bs ≡ byte_at bs 0 ∷ byte_at bs 1 ∷ []
two [] h = absurd (omega arith)
two (x ∷ bs) h = ap (◌∷◌ x) (one bs (omega arith))

pub four :
    (bs : Bytes)
    → length bs ≡ 4
    → bs ≡ byte_at bs 0 ∷ byte_at bs 1 ∷ byte_at bs 2 ∷ byte_at bs 3 ∷ []
four [] h = absurd (omega arith)
four (x ∷ []) h = absurd (omega arith)
four (x ∷ y ∷ bs) h = ap (λ t. x ∷ y ∷ t) (two bs (omega arith))

pub is_byte : (m n : ℕ) → (m == n) ≡ true → m ≡ n
is_byte m n h = ground arith

-- The greeting that `choose_method` takes off the input.
pub choose_method-input :
    (env : Env) (c u : Client)
    → choose_method env c ≡ next u tt
    → (methods : Bytes) × (contains_byte 0 methods ≡ true)
      × (c.input ≡ 5 ∷ length methods ∷ methods ++ u.input)
unfolding choose_method
choose_method-input env c u h =
    let (u1, header, e1, h1) = >>=-eq-next (read_n 2 c) _ h in
    let (u2, _, e2, h2) = >>=-eq-next (require (byte_at header 0 == 5) u1) _ h1 in
    let (u3, methods, e3, h3) = >>=-eq-next (read_n (byte_at header 1) u2) _ h2 in
    let (u4, _, e4, h4) = >>=-eq-next (require (contains_byte 0 methods) u3) _ h3 in
    let (in1, len1) = read_n-input 2 c u1 header e1 in
    let (in3, len3) = read_n-input (byte_at header 1) u2 u3 methods e3 in
    let (same2, five) = require-eq-next (byte_at header 0 == 5) u1 u2 e2 in
    let (same4, free) = require-eq-next (contains_byte 0 methods) u3 u4 e4 in
    let fifth = is_byte (byte_at header 0) 5 five in
    let rest : u3.input ≡ u.input =
      ap (λ t. t.input) same4 ∙ sym (send_reply-input env no_auth_reply u4 u h4) in
    (
      methods,
      free,
      in1
          ∙ ap (λ t. t ++ u1.input) (two header len1)
          ∙ ap (λ b. b ∷ byte_at header 1 ∷ u1.input) fifth
          ∙ ap (λ n. 5 ∷ n ∷ u1.input) (sym len3)
          ∙ ap (λ t. 5 ∷ length methods ∷ t.input) same2
          ∙ ap (λ t. 5 ∷ length methods ∷ t) in3
          ∙ ap (λ t. 5 ∷ length methods ∷ methods ++ t) rest,
    )

-- What `read_address` takes off the input.
abbrev Took : Env → ℕ → Client → Client → Bytes × Bool → Type 0
Took env kind c u a = (wire : Bytes) × (c.input ≡ wire ++ u.input) × Address env kind wire a.0 a.1

read_name-Took :
    (env : Env) (c u : Client) (a : Bytes × Bool)
    → (do
      count ← read_n 1 c
      sized ← require (not (byte_at count.1 0 == 0) && leb (byte_at count.1 0) 253) count.0
      found ← read_n (byte_at count.1 0) sized.0
      next found.0 (found.1, false))
      ≡ next u a
    → Took env 3 c u a
read_name-Took env c u a h =
    let (u1, count, e1, h1) = >>=-eq-next (read_n 1 c) _ h in
    let (u2, _, e2, h2) =
      >>=-eq-next (require (not (byte_at count 0 == 0) && leb (byte_at count 0) 253) u1) _ h1 in
    let (u3, host, e3, h3) = >>=-eq-next (read_n (byte_at count 0) u2) _ h2 in
    let (in1, len1) = read_n-input 1 c u1 count e1 in
    let (same2, sized) =
      require-eq-next (not (byte_at count 0 == 0) && leb (byte_at count 0) 253) u1 u2 e2 in
    let (in3, len3) = read_n-input (byte_at count 0) u2 u3 host e3 in
    let (same, result) = next_injective h3 in
    (
      length host ∷ host,
      in1
          ∙ ap (λ t. t ++ u1.input) (one count len1)
          ∙ ap (λ n. n ∷ u1.input) (sym len3)
          ∙ ap (λ t. length host ∷ t.input) same2
          ∙ ap (λ t. length host ∷ t) in3
          ∙ ap (λ t. length host ∷ host ++ t.input) same,
      subst (λ r. Address env 3 (length host ∷ host) r.0 r.1) result
          (name host (ground arith) (ground arith)),
    )

pub read_address-Took :
    (env : Env) (kind : ℕ) (c u : Client) (a : Bytes × Bool)
    → read_address env kind c ≡ next u a
    → Took env kind c u a
unfolding read_address
read_address-Took env kind c u a h = elim (Bool-cases (kind == 1)) [
  | inl y ↦
      let (u1, ip, e1, h1) = >>=-eq-next (read_n 4 c) _ (rw (y, read_address) at h) in
      let (taken, len) = read_n-input 4 c u1 ip e1 in
      let (same, result) = next_injective h1 in
      (
        ip,
        taken ∙ ap (λ t. ip ++ t.input) same,
        subst (λ k. Address env k ip a.0 a.1) (sym (is_byte kind 1 y))
            (subst (λ r. Address env 1 ip r.0 r.1) result (ipv4 ip len)),
      )
  | inr y ↦ elim (Bool-cases (kind == 4)) [
    | inl z ↦
        let (u1, ip, e1, h1) = >>=-eq-next (read_n 16 c) _ (rw (y, z, read_address) at h) in
        let (taken, len) = read_n-input 16 c u1 ip e1 in
        let (same, result) = next_injective h1 in
        (
          ip,
          taken ∙ ap (λ t. ip ++ t.input) same,
          subst (λ k. Address env k ip a.0 a.1) (sym (is_byte kind 4 z))
              (subst (λ r. Address env 4 ip r.0 r.1) result (ipv6 ip len)),
        )
    | inr z ↦ elim (Bool-cases (kind == 3)) [
      | inl w ↦
          let (wire, taken, is) = read_name-Took env c u a (rw (y, z, w, read_address) at h) in
          (wire, taken, subst (λ k. Address env k wire a.0 a.1) (sym (is_byte kind 3 w)) is)
      | inr w ↦ absurd (quit_with-ne-next env 8 c u a (rw (y, z, w, read_address) at h))
    ]
  ]
]
