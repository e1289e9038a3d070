-- ===== src/Tunnel/Tests.antt =====
-- A tunnel for a ClientHello and one for an unknown protocol, with the theorems at them.
use enimul.Common.{true, false, none, some, [], ◌∷◌, ◌≡◌, refl, arith}
use enimul.Common.Int.{pos}
use enimul.Outcome.{ok}
use enimul.Jsonx.{bool_true}
use enimul.AddrTrie.Domain.{fresh}
use enimul.AddrTrie.Ip.{new_trie}
use enimul.Modes.{mode_direct, mode_block}
use enimul.Dst.{new_single_dst, zero_dst}
use enimul.ClientHello.Tests.{client_hello}
use enimul.Policy.{init_policy}
use enimul.Routing.Evaluator.{Evaluator}
use enimul.Tunnel.{dialed, sent, Session, Env, go}
use enimul.Tunnel.Tls.{handle_tls}
use enimul.Tunnel.Entry.{Reader, ReadEnv, handle_tunnel, is_raw, bytes_has_prefix}
use enimul.Tunnel.Entry.Unknown.{unknown_end, handle_tunnel_unknown}

abbrev evaluator : Evaluator
evaluator = record {
  net = record {
    parsers = record { parse_addr = λ s. none; parse_prefix = λ s. none };
    to_string = λ a. [];
    masked = λ p. p.addr;
  };
  matcher = record {
    default_policy = init_policy;
    domain_policies = fresh;
    ipv4_policies = new_trie;
    ipv6_policies = new_trie;
    hosts = fresh;
  };
  get_dst_from = λ tag. ok zero_dst;
  resolve = λ n mode ttl. ok zero_dst;
  is_ip_text = λ s. false;
}

abbrev env : Env
env = record {
  evaluator = evaluator;
  dial = λ dst port n. true;
  write = λ c bytes. true;
  send_records = λ c p rec at len. true;
  get_fake_ttl = λ p c. some (pos 3);
  desync_send = λ c rec at len ttl. true;
  show_port = λ p. [];
}

-- A session for "ab.example.org", whose policy asks for TLS 1.3.
abbrev session : Session
session = record {
  policy = record init_policy { mode = mode_direct; tls13_only = bool_true };
  dst_conn = none;
  target = new_single_dst (b'1' ∷ []);
  origin_host =
      b'a' ∷ b'b' ∷ b'.' ∷ b'e' ∷ b'x' ∷ b'a' ∷ b'm' ∷ b'p' ∷ b'l' ∷ b'e' ∷ b'.' ∷ b'o' ∷ b'r'
      ∷ b'g' ∷ [];
  origin_port = b'4' ∷ b'4' ∷ b'3' ∷ [];
  port = b'4' ∷ b'4' ∷ b'3' ∷ [];
  from_sni_proxy = false;
  dials = 0;
  log = [];
}

abbrev passed : Session
passed = record session {
  dst_conn = some 0;
  dials = 1;
  log = dialed session.target session.port 0 ∷ sent 0 client_hello ∷ [];
}

-- The mode block keeps nothing back but the ClientHello: the tunnel goes on with no event for it.
abbrev blocking : Session
blocking = record session { policy = record init_policy { mode = mode_block } }

handle_tls_block :
    handle_tls env client_hello blocking
    ≡ go
        (record blocking {
          dst_conn = some 0;
          dials = 1;
          log = dialed session.target session.port 0 ∷ [];
        })
        tt
unfolding handle_tls
handle_tls_block = refl

abbrev renv : ReadEnv
renv = record { refill = λ left. 0; respond = λ status. true; read_request = λ r. (none, r) }

abbrev ssh : Reader
ssh = record {
  buffered = b'S' ∷ b'S' ∷ b'H' ∷ b'-' ∷ b'2' ∷ b'.' ∷ b'0' ∷ b'-' ∷ b'a' ∷ b'b' ∷ b'c' ∷ [];
  coming = [];
}

handle_tunnel_unknown_example :
    handle_tunnel env renv ssh session ≡ unknown_end env ssh.buffered session
unfolding is_raw bytes_has_prefix
handle_tunnel_unknown_example = handle_tunnel_unknown env renv ssh session refl (omega arith) refl
