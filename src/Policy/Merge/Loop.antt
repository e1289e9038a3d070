-- ===== src/Policy/Merge/Loop.antt =====
-- The loop of `mergePolicies`, field by field.
use enimul.Common.{
  Bool, List, [], ◌∷◌, map, ◌≡◌, refl, sym, ◌∙◌, inl, inr, if◌then◌else◌, Bool-cases,
}
use enimul.Jsonx.{is_unset, byte_is_unset}
use enimul.Dst.{is_zero}
use enimul.Policy.{Policy, is_unset_int, is_0, sniff_is_unset, mode_is_unset, dns_is_unset}
use enimul.Policy.Merge.{keep, merge_one, merge_loop}

module _ {A : Type 0} where
  -- The first value of the list that is set, and `initial` where there is none.
  unfoldable pub first_set : (A → Bool) → A → List A → A
  first_set unset initial [] = initial
  first_set unset initial (x ∷ xs) =
      let rest = first_set unset initial xs in if unset x then rest else x

  -- What the loop makes of a field that holds `old`.
  unfoldable pub settle : (A → Bool) → A → List A → A
  unfolding first_set
  settle unset old xs = if unset old then first_set unset old xs else old

  settle-keep :
      (unset : A → Bool) (old new : A) (xs : List A)
      → settle unset (keep unset old new) xs ≡ settle unset old (new ∷ xs)
  unfolding settle first_set
  settle-keep unset old new xs = elim (Bool-cases (unset old)) [
    | inr o ↦ rw (o, settle, o) refl
    | inl o ↦ elim (Bool-cases (unset new)) [
      | inl n ↦ rw (o, n, settle, o) refl
      | inr n ↦ rw (o, n, settle, n) refl
    ]
  ]

  settle-nil : (unset : A → Bool) (old : A) → settle unset old [] ≡ old
  unfolding settle first_set
  settle-nil unset old = elim (Bool-cases (unset old)) [
    | inr o ↦ rw (o, settle) refl
    | inl o ↦ rw (o, settle) refl
  ]

-- The loop, field by field.
unfoldable pub settled : Policy → List Policy → Policy
unfolding settle sniff_is_unset is_unset is_zero mode_is_unset dns_is_unset byte_is_unset
settled merged ps = record {
  sniff_override_mode =
      settle sniff_is_unset merged.sniff_override_mode (map (λ p. p.sniff_override_mode) ps);
  reply_first = settle is_unset merged.reply_first (map (λ p. p.reply_first) ps);
  connect_timeout = settle is_unset_int merged.connect_timeout (map (λ p. p.connect_timeout) ps);
  dial_delay = settle is_unset_int merged.dial_delay (map (λ p. p.dial_delay) ps);
  host = settle is_zero merged.host (map (λ p. p.host) ps);
  map_to = settle is_zero merged.map_to (map (λ p. p.map_to) ps);
  port = settle is_unset_int merged.port (map (λ p. p.port) ps);
  http_status = settle is_unset_int merged.http_status (map (λ p. p.http_status) ps);
  tls13_only = settle is_unset merged.tls13_only (map (λ p. p.tls13_only) ps);
  disable_ech_passthrough =
      settle is_unset merged.disable_ech_passthrough (map (λ p. p.disable_ech_passthrough) ps);
  mode = settle mode_is_unset merged.mode (map (λ p. p.mode) ps);
  dns_mode = settle dns_is_unset merged.dns_mode (map (λ p. p.dns_mode) ps);
  dns_cache_ttl = settle is_unset_int merged.dns_cache_ttl (map (λ p. p.dns_cache_ttl) ps);
  num_records = settle is_0 merged.num_records (map (λ p. p.num_records) ps);
  num_segments = settle is_0 merged.num_segments (map (λ p. p.num_segments) ps);
  wait_for_ack = settle is_unset merged.wait_for_ack (map (λ p. p.wait_for_ack) ps);
  oob = settle is_unset merged.oob (map (λ p. p.oob) ps);
  oobex = settle is_unset merged.oobex (map (λ p. p.oobex) ps);
  minor_ver = settle byte_is_unset merged.minor_ver (map (λ p. p.minor_ver) ps);
  send_interval = settle is_unset_int merged.send_interval (map (λ p. p.send_interval) ps);
  fake_sleep = settle is_0 merged.fake_sleep (map (λ p. p.fake_sleep) ps);
  fake_ttl = settle is_unset_int merged.fake_ttl (map (λ p. p.fake_ttl) ps);
  max_ttl = settle is_0 merged.max_ttl (map (λ p. p.max_ttl) ps);
  attempts = settle is_0 merged.attempts (map (λ p. p.attempts) ps);
  single_timeout = settle is_unset_int merged.single_timeout (map (λ p. p.single_timeout) ps);
  ttl_cache_ttl = settle is_unset_int merged.ttl_cache_ttl (map (λ p. p.ttl_cache_ttl) ps);
}

pub merge_loop-settled :
    (merged : Policy) (ps : List Policy) → merge_loop merged ps ≡ settled merged ps
unfolding merge_loop settled merge_one
merge_loop-settled merged [] = λ i. record {
  sniff_override_mode = sym (settle-nil sniff_is_unset merged.sniff_override_mode) i;
  reply_first = sym (settle-nil is_unset merged.reply_first) i;
  connect_timeout = sym (settle-nil is_unset_int merged.connect_timeout) i;
  dial_delay = sym (settle-nil is_unset_int merged.dial_delay) i;
  host = sym (settle-nil is_zero merged.host) i;
  map_to = sym (settle-nil is_zero merged.map_to) i;
  port = sym (settle-nil is_unset_int merged.port) i;
  http_status = sym (settle-nil is_unset_int merged.http_status) i;
  tls13_only = sym (settle-nil is_unset merged.tls13_only) i;
  disable_ech_passthrough = sym (settle-nil is_unset merged.disable_ech_passthrough) i;
  mode = sym (settle-nil mode_is_unset merged.mode) i;
  dns_mode = sym (settle-nil dns_is_unset merged.dns_mode) i;
  dns_cache_ttl = sym (settle-nil is_unset_int merged.dns_cache_ttl) i;
  num_records = sym (settle-nil is_0 merged.num_records) i;
  num_segments = sym (settle-nil is_0 merged.num_segments) i;
  wait_for_ack = sym (settle-nil is_unset merged.wait_for_ack) i;
  oob = sym (settle-nil is_unset merged.oob) i;
  oobex = sym (settle-nil is_unset merged.oobex) i;
  minor_ver = sym (settle-nil byte_is_unset merged.minor_ver) i;
  send_interval = sym (settle-nil is_unset_int merged.send_interval) i;
  fake_sleep = sym (settle-nil is_0 merged.fake_sleep) i;
  fake_ttl = sym (settle-nil is_unset_int merged.fake_ttl) i;
  max_ttl = sym (settle-nil is_0 merged.max_ttl) i;
  attempts = sym (settle-nil is_0 merged.attempts) i;
  single_timeout = sym (settle-nil is_unset_int merged.single_timeout) i;
  ttl_cache_ttl = sym (settle-nil is_unset_int merged.ttl_cache_ttl) i;
}
merge_loop-settled merged (p ∷ ps) = merge_loop-settled (merge_one merged p) ps ∙ (λ i. record {
  sniff_override_mode =
      settle-keep sniff_is_unset merged.sniff_override_mode p.sniff_override_mode
        (map (λ q. q.sniff_override_mode) ps) i;
  reply_first =
      settle-keep is_unset merged.reply_first p.reply_first (map (λ q. q.reply_first) ps) i;
  connect_timeout =
      settle-keep is_unset_int merged.connect_timeout p.connect_timeout
        (map (λ q. q.connect_timeout) ps) i;
  dial_delay =
      settle-keep is_unset_int merged.dial_delay p.dial_delay (map (λ q. q.dial_delay) ps) i;
  host = settle-keep is_zero merged.host p.host (map (λ q. q.host) ps) i;
  map_to = settle-keep is_zero merged.map_to p.map_to (map (λ q. q.map_to) ps) i;
  port = settle-keep is_unset_int merged.port p.port (map (λ q. q.port) ps) i;
  http_status =
      settle-keep is_unset_int merged.http_status p.http_status (map (λ q. q.http_status) ps) i;
  tls13_only = settle-keep is_unset merged.tls13_only p.tls13_only (map (λ q. q.tls13_only) ps) i;
  disable_ech_passthrough =
      settle-keep is_unset merged.disable_ech_passthrough p.disable_ech_passthrough
        (map (λ q. q.disable_ech_passthrough) ps) i;
  mode = settle-keep mode_is_unset merged.mode p.mode (map (λ q. q.mode) ps) i;
  dns_mode = settle-keep dns_is_unset merged.dns_mode p.dns_mode (map (λ q. q.dns_mode) ps) i;
  dns_cache_ttl =
      settle-keep is_unset_int merged.dns_cache_ttl p.dns_cache_ttl (map (λ q. q.dns_cache_ttl) ps)
        i;
  num_records = settle-keep is_0 merged.num_records p.num_records (map (λ q. q.num_records) ps) i;
  num_segments =
      settle-keep is_0 merged.num_segments p.num_segments (map (λ q. q.num_segments) ps) i;
  wait_for_ack =
      settle-keep is_unset merged.wait_for_ack p.wait_for_ack (map (λ q. q.wait_for_ack) ps) i;
  oob = settle-keep is_unset merged.oob p.oob (map (λ q. q.oob) ps) i;
  oobex = settle-keep is_unset merged.oobex p.oobex (map (λ q. q.oobex) ps) i;
  minor_ver = settle-keep byte_is_unset merged.minor_ver p.minor_ver (map (λ q. q.minor_ver) ps) i;
  send_interval =
      settle-keep is_unset_int merged.send_interval p.send_interval (map (λ q. q.send_interval) ps)
        i;
  fake_sleep = settle-keep is_0 merged.fake_sleep p.fake_sleep (map (λ q. q.fake_sleep) ps) i;
  fake_ttl = settle-keep is_unset_int merged.fake_ttl p.fake_ttl (map (λ q. q.fake_ttl) ps) i;
  max_ttl = settle-keep is_0 merged.max_ttl p.max_ttl (map (λ q. q.max_ttl) ps) i;
  attempts = settle-keep is_0 merged.attempts p.attempts (map (λ q. q.attempts) ps) i;
  single_timeout =
      settle-keep is_unset_int merged.single_timeout p.single_timeout
        (map (λ q. q.single_timeout) ps) i;
  ttl_cache_ttl =
      settle-keep is_unset_int merged.ttl_cache_ttl p.ttl_cache_ttl (map (λ q. q.ttl_cache_ttl) ps)
        i;
})
