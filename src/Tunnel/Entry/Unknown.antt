-- ===== src/Tunnel/Entry/Unknown.antt =====
-- `handleTunnel` on a protocol that is neither TLS nor HTTP.
use enimul.Common.{
  ◌≤◌, Bool, true, false, not, none, some, ◌==◌, leb, if◌then◌else◌, Bytes, take, length, ◌≡◌, refl,
  inl, inr, arith, Bool-cases, Option-cases,
}
use enimul.Tunnel.{sent, forwarding, Session, Env, Flow, crash, stop, go, note_event, write_conn}
use enimul.Tunnel.Tls.{close_old}
use enimul.Tunnel.Entry.{
  Reader, ReadEnv, bytes_has_prefix, methods, drain_buffered, forward_tcp, close_here, is_raw,
  byte_at, dispatch, handle_tunnel,
}

-- The first bytes are no TLS handshake of a version 3 and no HTTP method.
abbrev pub is_unknown : Bytes → Bool
is_unknown bs =
    if byte_at bs 0 == 0x16
    then not (byte_at bs 1 == 3)
    else not (bytes_has_prefix (take 10 bs) methods)

-- What becomes of a session with an unknown protocol.
unfoldable pub unknown_end : Env → Bytes → Session → Flow (Unit {0})
unknown_end env bs s = elim s.dst_conn [
  | none ↦ crash
  | some c ↦
      if env.write c bs
      then go (note_event (forwarding c) (note_event (sent c bs) s)) tt
      else stop (close_old (some c) s)
]

dispatch_unknown :
    (env : Env) (renv : ReadEnv) (r : Reader) (s : Session)
    → is_unknown r.buffered ≡ true
    → dispatch env renv r s ≡ go s r
unfolding dispatch
dispatch_unknown env renv r s h = elim (Bool-cases (byte_at r.buffered 0 == 0x16)) [
  | inl y ↦ elim (Bool-cases (byte_at r.buffered 1 == 3)) [
    | inl z ↦ cc (rw (y, z) at h)
    | inr z ↦ rw (y, z, dispatch) refl
  ]
  | inr y ↦ elim (Bool-cases (bytes_has_prefix (take 10 r.buffered) methods)) [
    | inl z ↦ cc (rw (y, z) at h)
    | inr z ↦ rw (y, z, dispatch) refl
  ]
]

-- A tunnel that is not in mode raw and whose client has sent at least ten bytes, which are no TLS
-- handshake of a version 3 and start with no HTTP method: where there is a connection to the
-- destination, the bytes are written to it and the tunnel forwards, or it is closed where the write
-- fails; where there is none, as with `reply_first`, none is dialed and the tunnel ends by the use
-- of the connection that is nil.
pub handle_tunnel_unknown :
    (env : Env) (renv : ReadEnv) (r : Reader) (s : Session)
    → is_raw s.policy.mode ≡ false
    → 10 ≤ length r.buffered
    → is_unknown r.buffered ≡ true
    → handle_tunnel env renv r s ≡ unknown_end env r.buffered s
unfolding handle_tunnel drain_buffered forward_tcp close_here unknown_end
handle_tunnel_unknown env renv r s mode long h =
    let full : leb 10 (length r.buffered) ≡ true = ground arith in
    let some_bytes : (length r.buffered == 0) ≡ false = ground arith in
    elim (Option-cases s.dst_conn) [
      | inl y ↦
          rw (mode, full, dispatch_unknown env renv r s h, handle_tunnel)
            (simp (some_bytes, y, drain_buffered, unknown_end))
      | inr (c, y) ↦ elim (Bool-cases (env.write c r.buffered)) [
        | inl z ↦
            rw (mode, full, dispatch_unknown env renv r s h, handle_tunnel)
              (simp (
                some_bytes, y, z, drain_buffered, write_conn, forward_tcp, close_here, unknown_end,
              ))
        | inr z ↦
            rw (mode, full, dispatch_unknown env renv r s h, handle_tunnel)
              (simp (
                some_bytes, y, z, drain_buffered, write_conn, forward_tcp, close_here, unknown_end,
              ))
      ]
    ]
