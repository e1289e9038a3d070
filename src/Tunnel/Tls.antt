-- ===== src/Tunnel/Tls.antt =====
-- internal/core/tunnel.go: `handleTLS`.
pub mod Forced
pub mod Guards
use enimul.Common.{
  ℕ, zero, suc, ◌+◌, Bool, true, false, not, ◌&&◌, ◌||◌, Option, none, some, List, [], ◌∷◌, ◌++◌,
  if◌then◌else◌, Bytes, bytes_eq, take,
}
use enimul.Common.Int.{ℤ, pos, negsuc, leb_ℤ}
use enimul.Outcome.{Outcome, ok, failed, panic}
use enimul.Jsonx.{is_true}
use enimul.Modes.{
  SniffOverrideMode, sniff_unset, sniff_off, sniff_always, sniff_policy_exists, sniff_route_only,
  Mode, mode_unset, mode_raw, mode_direct, mode_tlsrf, mode_ttld, mode_block, mode_tls_alert,
}
use enimul.Dst.{Dst}
use enimul.Fragment.{slice?}
use enimul.ClientHello.{Hello, parse_client_hello}
use enimul.Policy.{Policy, is_0, is_unset_int}
use enimul.Policy.Merge.{merge_policies}
use enimul.Routing.{get_domain_policy}
use enimul.Routing.Evaluator.{
  Evaluator, Generated, chosen, gave_up, blocked, domain_not_found, gen_policy,
}
use enimul.Tunnel.{
  Event, closed, fragmented, desynced, Session, Env, Flow, crash, stop, go, ◌>>=◌, note_event, lift,
  send_tls_alert, access_denied, check_tls13_only, dial_timeout, connect, write_conn,
}

unfoldable pub is_tls_alert : Mode → Bool
is_tls_alert mode_tls_alert = true
is_tls_alert _ = false

abbrev pub is_policy_exists : SniffOverrideMode → Bool
is_policy_exists sniff_policy_exists = true
is_policy_exists _ = false

-- The switch on the mode of a policy that blocks.
unfoldable pub check_mode : Mode → Bytes → Session → Flow (Unit {0})
unfolding send_tls_alert
check_mode mode_block prt_ver s = stop s
check_mode mode_tls_alert prt_ver s = stop (send_tls_alert prt_ver access_denied s)
check_mode _ prt_ver s = go s tt

-- `SniffOverrideRouteOnly`
unfoldable pub route_only : Env → Hello → Bytes → Session → Flow Mode
unfolding get_domain_policy check_mode check_tls13_only merge_policies
route_only env hello sni s = elim (get_domain_policy env.evaluator.matcher sni) [
  | none ↦ go s mode_unset
  | some p ↦ (do
    checked ← check_mode p.mode hello.prt_ver s
    passed ← check_tls13_only hello.is_tls13 p hello.prt_ver checked.0
    go (record passed.0 { policy = merge_policies (p ∷ s.policy ∷ []) }) mode_unset)
]

abbrev pub close_old : Option ℕ → Session → Session
close_old none s = s
close_old (some c) s = note_event (closed c) s

-- The new destination of `SniffOverrideAlways` and `SniffOverridePolicyExists`.
unfoldable pub redirect : Env → Hello → Dst → Policy → Session → Flow Mode
unfolding send_tls_alert check_tls13_only dial_timeout is_tls_alert
redirect env hello dst p s =
    if is_tls_alert p.mode then stop (send_tls_alert hello.prt_ver access_denied s) else (do
      passed ← check_tls13_only hello.is_tls13 p hello.prt_ver s
      let port =
          if not (is_0 p.port) && not (is_unset_int p.port)
          then env.show_port p.port
          else s.origin_port
      let dialing = dial_timeout env dst port passed.0
      elim dialing.1 [
        | some c ↦
            go
              (record (close_old s.dst_conn dialing.0) {
                dst_conn = some c;
                policy = p;
                target = dst;
                port = port;
              })
              mode_unset
        | none ↦ if s.from_sni_proxy then stop dialing.0 else go dialing.0 mode_unset
      ])

unfoldable pub override : Env → Hello → Bytes → Session → Flow Mode
unfolding gen_policy redirect
override env hello sni s =
    lift s (
      gen_policy env.evaluator sni false
        (not s.from_sni_proxy && is_policy_exists s.policy.sniff_override_mode))
    >>= λ found. elim found.1 [
      | gave_up ↦ if s.from_sni_proxy then stop s else go s mode_unset
      | domain_not_found ↦ go s mode_unset
      | blocked ↦ stop s
      | chosen dst p ↦ redirect env hello dst p s
    ]

-- The switch on `SniffOverrideMode`.
unfoldable pub sniff : SniffOverrideMode → Env → Hello → Bytes → Session → Flow Mode
unfolding route_only override
sniff sniff_route_only env hello sni s = route_only env hello sni s
sniff sniff_always env hello sni s = override env hello sni s
sniff sniff_policy_exists env hello sni s = override env hello sni s
sniff sniff_unset env hello sni s = go s mode_unset
sniff sniff_off env hello sni s = go s mode_unset

abbrev pub start_of : ℤ → ℕ
start_of (pos n) = n
start_of (negsuc n) = 0

-- From the search for the name on: the mode that is forced, or the unset one.
unfoldable pub choose_mode : Env → Hello → Bytes → Session → Flow Mode
unfolding sniff is_true bytes_eq
choose_mode env hello rec s =
    if leb_ℤ hello.sni_start (pos 0)
    then (if s.from_sni_proxy then stop s else go s mode_direct)
    else (lift s (slice? rec (start_of hello.sni_start) (start_of hello.sni_start + hello.sni_len))
        >>= λ name.
            if hello.has_ech
            then (if s.from_sni_proxy
                then stop s
                else go s
                    (if is_true s.policy.disable_ech_passthrough then mode_unset else mode_direct))
            else if s.from_sni_proxy || not (bytes_eq s.origin_host name.1)
            then sniff s.policy.sniff_override_mode env hello name.1
                (if s.from_sni_proxy then record s { origin_host = name.1 } else s)
            else go s mode_unset)

abbrev pub or_else : Mode → Mode → Mode
or_else mode_unset m = m
or_else forced m = forced

-- The switch on the mode at the end of `handleTLS`.
unfoldable pub send_hello : Mode → Env → ℕ → Hello → Bytes → Session → Flow (Unit {0})
unfolding write_conn
send_hello mode_direct env c hello rec s = write_conn env c rec s
send_hello mode_raw env c hello rec s = write_conn env c rec s
send_hello mode_tlsrf env c hello rec s =
    if env.send_records c s.policy rec hello.sni_start hello.sni_len
    then go (note_event (fragmented c s.policy rec) s) tt
    else stop s
send_hello mode_ttld env c hello rec s = elim (env.get_fake_ttl s.policy c) [
  | none ↦ stop s
  | some ttl ↦
      if env.desync_send c rec hello.sni_start hello.sni_len ttl
      then go (note_event (desynced c rec ttl) s) tt
      else stop s
]
send_hello _ env c hello rec s = go s tt

-- `handleTLS` behind the read of the record; going on is `return true`.
unfoldable pub handle_tls : Env → Bytes → Session → Flow (Unit {0})
unfolding parse_client_hello send_tls_alert check_tls13_only choose_mode connect send_hello
    is_tls_alert
handle_tls env rec s = lift s (parse_client_hello rec) >>= λ hello.
    if is_tls_alert s.policy.mode
    then stop (send_tls_alert hello.1.prt_ver access_denied s)
    else (do
      passed ← check_tls13_only hello.1.is_tls13 s.policy hello.1.prt_ver s
      forced ← choose_mode env hello.1 rec passed.0
      connected ← connect env forced.0
      send_hello (or_else forced.1 connected.0.policy.mode) env connected.1 hello.1 rec connected.0)
