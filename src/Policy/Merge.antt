-- ===== src/Policy/Merge.antt =====
-- internal/core/policy.go: `mergePolicies`.
pub mod Loop
pub mod Merging
use Prim.Native.String.{String}
use enimul.Common.{
  ℕ, suc, ◌-◌, ◌%◌, ◌^◌, Bool, true, false, not, ◌&&◌, Option, none, some, List, [], ◌∷◌, ltb, leb,
  ◌==◌, if◌then◌else◌,
}
use enimul.Common.Int.{ℤ, pos, negsuc, ◌==ℤ◌, leb_ℤ}
use enimul.Common.Result.{Error, msg}
use enimul.Outcome.{Outcome, ok, failed, ◌>>=◌}
use enimul.Jsonx.{JsonBool, bool_unset, is_unset, JsonByte, byte_is_unset}
use enimul.Modes.{
  SniffOverrideMode, sniff_unset, Mode, mode_unset, mode_tlsrf, DnsMode, dns_unset, dns_prefer_ipv4,
}
use enimul.Dst.{Dst, zero_dst, is_zero}
use enimul.Policy.{
  Policy, PolicyOptions, init_policy, unset_int, is_unset_int, is_0, unset_byte, sniff_is_unset,
  mode_is_unset, dns_is_unset,
}

-- `if merged.X is unset && p.X is set { merged.X = p.X }`
abbrev pub keep : {A : Type 0} → (A → Bool) → A → A → A
keep unset old new = if unset old && not (unset new) then new else old

-- One round of the loop of `mergePolicies`.
unfoldable pub merge_one : Policy → Policy → Policy
unfolding sniff_is_unset is_unset is_zero mode_is_unset dns_is_unset byte_is_unset
merge_one merged p = record {
  sniff_override_mode = keep sniff_is_unset merged.sniff_override_mode p.sniff_override_mode;
  reply_first = keep is_unset merged.reply_first p.reply_first;
  connect_timeout = keep is_unset_int merged.connect_timeout p.connect_timeout;
  dial_delay = keep is_unset_int merged.dial_delay p.dial_delay;
  host = keep is_zero merged.host p.host;
  map_to = keep is_zero merged.map_to p.map_to;
  port = keep is_unset_int merged.port p.port;
  http_status = keep is_unset_int merged.http_status p.http_status;
  tls13_only = keep is_unset merged.tls13_only p.tls13_only;
  disable_ech_passthrough = keep is_unset merged.disable_ech_passthrough p.disable_ech_passthrough;
  mode = keep mode_is_unset merged.mode p.mode;
  dns_mode = keep dns_is_unset merged.dns_mode p.dns_mode;
  dns_cache_ttl = keep is_unset_int merged.dns_cache_ttl p.dns_cache_ttl;
  num_records = keep is_0 merged.num_records p.num_records;
  num_segments = keep is_0 merged.num_segments p.num_segments;
  wait_for_ack = keep is_unset merged.wait_for_ack p.wait_for_ack;
  oob = keep is_unset merged.oob p.oob;
  oobex = keep is_unset merged.oobex p.oobex;
  minor_ver = keep byte_is_unset merged.minor_ver p.minor_ver;
  send_interval = keep is_unset_int merged.send_interval p.send_interval;
  fake_sleep = keep is_0 merged.fake_sleep p.fake_sleep;
  fake_ttl = keep is_unset_int merged.fake_ttl p.fake_ttl;
  max_ttl = keep is_0 merged.max_ttl p.max_ttl;
  attempts = keep is_0 merged.attempts p.attempts;
  single_timeout = keep is_unset_int merged.single_timeout p.single_timeout;
  ttl_cache_ttl = keep is_unset_int merged.ttl_cache_ttl p.ttl_cache_ttl;
}

unfoldable pub merge_loop : Policy → List Policy → Policy
unfolding merge_one
merge_loop merged [] = merged
merge_loop merged (p ∷ ps) = merge_loop (merge_one merged p) ps

-- The defaults behind the loop.
unfoldable pub with_defaults : Policy → Policy
unfolding mode_is_unset dns_is_unset
with_defaults merged = record merged {
  mode = if mode_is_unset merged.mode then mode_tlsrf else merged.mode;
  dns_mode = if dns_is_unset merged.dns_mode then dns_prefer_ipv4 else merged.dns_mode;
}

-- `mergePolicies`
unfoldable pub merge_policies : List Policy → Policy
unfolding merge_loop with_defaults
merge_policies ps = with_defaults (merge_loop init_policy ps)
