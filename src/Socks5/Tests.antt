-- ===== src/Socks5/Tests.antt =====
-- A request for a name over SOCKS5, and the theorem at it.
use enimul.Common.{Option, Bool, true, false, [], ◌∷◌, ◌≡◌, refl, Bytes}
use enimul.Outcome.{ok}
use enimul.AddrTrie.Domain.{fresh}
use enimul.AddrTrie.Ip.{new_trie}
use enimul.Dst.{Dst, new_single_dst, zero_dst}
use enimul.Policy.{Policy, init_policy}
use enimul.Routing.Evaluator.{Evaluator, chosen, gen_policy}
use enimul.Tunnel.{Session}
use enimul.Socks5.{Env, Client, Step, quit, next, no_auth_reply, reply_of, socks5_handler}
use enimul.Socks5.Request.{Requests}
use enimul.Socks5.Opening.{Opens, socks5_handler-Opens}

abbrev evaluator : Evaluator
evaluator = record {
  net = record {
    parsers = record { parse_addr = λ s. Option.none; parse_prefix = λ s. Option.none };
    to_string = λ a. [];
    masked = λ p. p.addr;
  };
  matcher = record {
    default_policy = init_policy;
    domain_policies = fresh;
    ipv4_policies = new_trie;
    ipv6_policies = new_trie;
    hosts = fresh;
  };
  get_dst_from = λ tag. ok zero_dst;
  resolve = λ n mode ttl. ok (new_single_dst (b'1' ∷ []));
  is_ip_text = λ s. false;
}

abbrev env : Env
env = record {
  evaluator = evaluator;
  write = λ n. true;
  dial = λ dst port p. true;
  show_ip = λ bytes. bytes;
  show_port = λ n. n ∷ [];
}

-- The method without authentication, then CONNECT to "a.b", port 443.
abbrev request : Bytes
request = 5 ∷ 1 ∷ 0 ∷ 5 ∷ 1 ∷ 0 ∷ 3 ∷ 3 ∷ b'a' ∷ b'.' ∷ b'b' ∷ 1 ∷ 187 ∷ []

abbrev client_of : Step Session → Client
client_of (next c ts) = c
client_of (quit c) = c
client_of _ = record { input = []; replies = [] }

refused_command :
    client_of (socks5_handler env (5 ∷ 1 ∷ 0 ∷ 5 ∷ 2 ∷ 0 ∷ 3 ∷ []))
    ≡ record { input = []; replies = no_auth_reply ∷ reply_of 7 ∷ [] }
unfolding socks5_handler
refused_command = refl

abbrev session_or : Step Session → Session → Session
session_or (next c ts) other = ts
session_or _ other = other

abbrev no_session : Session
no_session = record {
  policy = init_policy;
  dst_conn = Option.none;
  target = zero_dst;
  origin_host = [];
  origin_port = [];
  port = [];
  from_sni_proxy = false;
  dials = 0;
  log = [];
}

abbrev client : Client
client = record { input = []; replies = no_auth_reply ∷ reply_of 0 ∷ [] }

abbrev session : Session
unfolding socks5_handler
session = session_or (socks5_handler env request) no_session

opens : socks5_handler env request ≡ next client session
unfolding socks5_handler
opens = refl

socks5_handler-Opens_example :
    (is_ip : Bool) × Requests env request session.origin_host is_ip
    × (dst : Dst) × (p : Policy) × (gen_policy env.evaluator session.origin_host is_ip false
        ≡ ok (chosen dst p))
    × Opens env dst p (no_auth_reply ∷ []) client session
socks5_handler-Opens_example = socks5_handler-Opens env request client session opens
