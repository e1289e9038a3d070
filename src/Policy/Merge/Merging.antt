-- ===== src/Policy/Merge/Merging.antt =====
-- `mergePolicies` takes each field from the first policy that sets it.
use enimul.Common.{
  Bool, true, List, [], ◌∷◌, ◌++◌, map, ◌≡◌, refl, sym, ap, ◌∙◌, inl, inr, if◌then◌else◌,
  Bool-cases,
}
use enimul.Common.Int.{pos}
use enimul.Jsonx.{bool_unset, is_unset, byte_is_unset}
use enimul.Modes.{sniff_unset, mode_unset, mode_tlsrf, dns_unset, dns_prefer_ipv4}
use enimul.Dst.{zero_dst, is_zero}
use enimul.Policy.{
  Policy, init_policy, unset_int, is_unset_int, is_0, unset_byte, sniff_is_unset, mode_is_unset,
  dns_is_unset,
}
use enimul.Policy.Merge.{with_defaults, merge_policies}
use enimul.Policy.Merge.Loop.{first_set, settle, settled, merge_loop-settled}

-- Each field from the first policy that sets it, with the defaults of the two modes.
unfoldable pub first_policy : List Policy → Policy
unfolding first_set sniff_is_unset is_unset is_zero mode_is_unset dns_is_unset byte_is_unset
first_policy ps = record {
  sniff_override_mode = first_set sniff_is_unset sniff_unset (map (λ p. p.sniff_override_mode) ps);
  reply_first = first_set is_unset bool_unset (map (λ p. p.reply_first) ps);
  connect_timeout = first_set is_unset_int unset_int (map (λ p. p.connect_timeout) ps);
  dial_delay = first_set is_unset_int unset_int (map (λ p. p.dial_delay) ps);
  host = first_set is_zero zero_dst (map (λ p. p.host) ps);
  map_to = first_set is_zero zero_dst (map (λ p. p.map_to) ps);
  port = first_set is_unset_int unset_int (map (λ p. p.port) ps);
  http_status = first_set is_unset_int unset_int (map (λ p. p.http_status) ps);
  tls13_only = first_set is_unset bool_unset (map (λ p. p.tls13_only) ps);
  disable_ech_passthrough = first_set is_unset bool_unset (map (λ p. p.disable_ech_passthrough) ps);
  mode = first_set mode_is_unset mode_tlsrf (map (λ p. p.mode) ps);
  dns_mode = first_set dns_is_unset dns_prefer_ipv4 (map (λ p. p.dns_mode) ps);
  dns_cache_ttl = first_set is_unset_int unset_int (map (λ p. p.dns_cache_ttl) ps);
  num_records = first_set is_0 (pos 0) (map (λ p. p.num_records) ps);
  num_segments = first_set is_0 (pos 0) (map (λ p. p.num_segments) ps);
  wait_for_ack = first_set is_unset bool_unset (map (λ p. p.wait_for_ack) ps);
  oob = first_set is_unset bool_unset (map (λ p. p.oob) ps);
  oobex = first_set is_unset bool_unset (map (λ p. p.oobex) ps);
  minor_ver = first_set byte_is_unset unset_byte (map (λ p. p.minor_ver) ps);
  send_interval = first_set is_unset_int unset_int (map (λ p. p.send_interval) ps);
  fake_sleep = first_set is_0 (pos 0) (map (λ p. p.fake_sleep) ps);
  fake_ttl = first_set is_unset_int unset_int (map (λ p. p.fake_ttl) ps);
  max_ttl = first_set is_0 (pos 0) (map (λ p. p.max_ttl) ps);
  attempts = first_set is_0 (pos 0) (map (λ p. p.attempts) ps);
  single_timeout = first_set is_unset_int unset_int (map (λ p. p.single_timeout) ps);
  ttl_cache_ttl = first_set is_unset_int unset_int (map (λ p. p.ttl_cache_ttl) ps);
}

default-first_set :
    {A : Type 0} (unset : A → Bool) (blank default : A) (xs : List A)
    → unset blank ≡ true
    → (if unset (first_set unset blank xs) then default else first_set unset blank xs)
      ≡ first_set unset default xs
unfolding first_set
default-first_set unset blank default [] h = rw h refl
default-first_set unset blank default (x ∷ xs) h = elim (Bool-cases (unset x)) [
  | inl y ↦ rw (y, first_set) (default-first_set unset blank default xs h)
  | inr y ↦ rw (y, first_set) (rw y refl)
]

-- `mergePolicies` takes each field from the first policy that sets it, and leaves a field that none
-- sets unset, other than the two modes, which become "tls-rf" and "prefer_ipv4".
pub merge_policies-first_policy : (ps : List Policy) → merge_policies ps ≡ first_policy ps
unfolding merge_policies first_policy with_defaults settled settle
merge_policies-first_policy ps = ap with_defaults (merge_loop-settled init_policy ps) ∙ (λ i.
    record {
      sniff_override_mode =
          first_set sniff_is_unset sniff_unset (map (λ p. p.sniff_override_mode) ps);
      reply_first = first_set is_unset bool_unset (map (λ p. p.reply_first) ps);
      connect_timeout = first_set is_unset_int unset_int (map (λ p. p.connect_timeout) ps);
      dial_delay = first_set is_unset_int unset_int (map (λ p. p.dial_delay) ps);
      host = first_set is_zero zero_dst (map (λ p. p.host) ps);
      map_to = first_set is_zero zero_dst (map (λ p. p.map_to) ps);
      port = first_set is_unset_int unset_int (map (λ p. p.port) ps);
      http_status = first_set is_unset_int unset_int (map (λ p. p.http_status) ps);
      tls13_only = first_set is_unset bool_unset (map (λ p. p.tls13_only) ps);
      disable_ech_passthrough =
          first_set is_unset bool_unset (map (λ p. p.disable_ech_passthrough) ps);
      mode = default-first_set mode_is_unset mode_unset mode_tlsrf (map (λ p. p.mode) ps) refl i;
      dns_mode =
          default-first_set dns_is_unset dns_unset dns_prefer_ipv4 (map (λ p. p.dns_mode) ps) refl
            i;
      dns_cache_ttl = first_set is_unset_int unset_int (map (λ p. p.dns_cache_ttl) ps);
      num_records = first_set is_0 (pos 0) (map (λ p. p.num_records) ps);
      num_segments = first_set is_0 (pos 0) (map (λ p. p.num_segments) ps);
      wait_for_ack = first_set is_unset bool_unset (map (λ p. p.wait_for_ack) ps);
      oob = first_set is_unset bool_unset (map (λ p. p.oob) ps);
      oobex = first_set is_unset bool_unset (map (λ p. p.oobex) ps);
      minor_ver = first_set byte_is_unset unset_byte (map (λ p. p.minor_ver) ps);
      send_interval = first_set is_unset_int unset_int (map (λ p. p.send_interval) ps);
      fake_sleep = first_set is_0 (pos 0) (map (λ p. p.fake_sleep) ps);
      fake_ttl = first_set is_unset_int unset_int (map (λ p. p.fake_ttl) ps);
      max_ttl = first_set is_0 (pos 0) (map (λ p. p.max_ttl) ps);
      attempts = first_set is_0 (pos 0) (map (λ p. p.attempts) ps);
      single_timeout = first_set is_unset_int unset_int (map (λ p. p.single_timeout) ps);
      ttl_cache_ttl = first_set is_unset_int unset_int (map (λ p. p.ttl_cache_ttl) ps);
    })

nested :
    {A : Type 0} (unset : A → Bool) (initial : A) (xs ys : List A)
    → first_set unset initial (xs ++ first_set unset initial ys ∷ [])
      ≡ first_set unset initial (xs ++ ys)
unfolding first_set
nested unset initial [] [] = elim (Bool-cases (unset initial)) [
  | inl y ↦ rw (y, first_set) refl
  | inr y ↦ rw (y, first_set) refl
]
nested unset initial [] (y ∷ ys) = elim (Bool-cases (unset y)) [
  | inl u ↦ rw (u, first_set) (nested unset initial [] ys)
  | inr u ↦ rw (u, first_set) (rw (u, first_set) refl)
]
nested unset initial (x ∷ xs) ys = elim (Bool-cases (unset x)) [
  | inl u ↦ rw (u, first_set) (nested unset initial xs ys)
  | inr u ↦ rw (u, first_set) refl
]

map-append {ℓ κ} :
    {A : Type ℓ} {B : Type κ} (f : A → B) (xs ys : List A) → map f (xs ++ ys) ≡ map f xs ++ map f ys
map-append f [] ys = refl
map-append f (x ∷ xs) ys = ap (◌∷◌ (f x)) (map-append f xs ys)

nested-field :
    {A : Type 0} (field : Policy → A) (unset : A → Bool) (initial : A) (ps : List Policy)
    (q : Policy) (qs : List Policy)
    → field q ≡ first_set unset initial (map field qs)
    → first_set unset initial (map field (ps ++ q ∷ []))
      ≡ first_set unset initial (map field (ps ++ qs))
nested-field field unset initial ps q qs h =
    ap (first_set unset initial) (map-append field ps (q ∷ []))
    ∙ ap (λ a. first_set unset initial (map field ps ++ a ∷ [])) h
    ∙ nested unset initial (map field ps) (map field qs)
    ∙ ap (first_set unset initial) (sym (map-append field ps qs))

first_policy-nested :
    (ps qs : List Policy) → first_policy (ps ++ first_policy qs ∷ []) ≡ first_policy (ps ++ qs)
unfolding first_policy
first_policy-nested ps qs = λ i. record {
  sniff_override_mode =
      nested-field (λ p. p.sniff_override_mode) sniff_is_unset sniff_unset ps (first_policy qs) qs
        refl i;
  reply_first =
      nested-field (λ p. p.reply_first) is_unset bool_unset ps (first_policy qs) qs refl i;
  connect_timeout =
      nested-field (λ p. p.connect_timeout) is_unset_int unset_int ps (first_policy qs) qs refl i;
  dial_delay =
      nested-field (λ p. p.dial_delay) is_unset_int unset_int ps (first_policy qs) qs refl i;
  host = nested-field (λ p. p.host) is_zero zero_dst ps (first_policy qs) qs refl i;
  map_to = nested-field (λ p. p.map_to) is_zero zero_dst ps (first_policy qs) qs refl i;
  port = nested-field (λ p. p.port) is_unset_int unset_int ps (first_policy qs) qs refl i;
  http_status =
      nested-field (λ p. p.http_status) is_unset_int unset_int ps (first_policy qs) qs refl i;
  tls13_only = nested-field (λ p. p.tls13_only) is_unset bool_unset ps (first_policy qs) qs refl i;
  disable_ech_passthrough =
      nested-field (λ p. p.disable_ech_passthrough) is_unset bool_unset ps (first_policy qs) qs refl
        i;
  mode = nested-field (λ p. p.mode) mode_is_unset mode_tlsrf ps (first_policy qs) qs refl i;
  dns_mode =
      nested-field (λ p. p.dns_mode) dns_is_unset dns_prefer_ipv4 ps (first_policy qs) qs refl i;
  dns_cache_ttl =
      nested-field (λ p. p.dns_cache_ttl) is_unset_int unset_int ps (first_policy qs) qs refl i;
  num_records = nested-field (λ p. p.num_records) is_0 (pos 0) ps (first_policy qs) qs refl i;
  num_segments = nested-field (λ p. p.num_segments) is_0 (pos 0) ps (first_policy qs) qs refl i;
  wait_for_ack =
      nested-field (λ p. p.wait_for_ack) is_unset bool_unset ps (first_policy qs) qs refl i;
  oob = nested-field (λ p. p.oob) is_unset bool_unset ps (first_policy qs) qs refl i;
  oobex = nested-field (λ p. p.oobex) is_unset bool_unset ps (first_policy qs) qs refl i;
  minor_ver =
      nested-field (λ p. p.minor_ver) byte_is_unset unset_byte ps (first_policy qs) qs refl i;
  send_interval =
      nested-field (λ p. p.send_interval) is_unset_int unset_int ps (first_policy qs) qs refl i;
  fake_sleep = nested-field (λ p. p.fake_sleep) is_0 (pos 0) ps (first_policy qs) qs refl i;
  fake_ttl = nested-field (λ p. p.fake_ttl) is_unset_int unset_int ps (first_policy qs) qs refl i;
  max_ttl = nested-field (λ p. p.max_ttl) is_0 (pos 0) ps (first_policy qs) qs refl i;
  attempts = nested-field (λ p. p.attempts) is_0 (pos 0) ps (first_policy qs) qs refl i;
  single_timeout =
      nested-field (λ p. p.single_timeout) is_unset_int unset_int ps (first_policy qs) qs refl i;
  ttl_cache_ttl =
      nested-field (λ p. p.ttl_cache_ttl) is_unset_int unset_int ps (first_policy qs) qs refl i;
}

-- Merging policies with the merge of further ones is merging all of them at once: a policy that has
-- been merged with the default one may be merged under another.
pub merge_policies-nested :
    (ps qs : List Policy)
    → merge_policies (ps ++ merge_policies qs ∷ []) ≡ merge_policies (ps ++ qs)
merge_policies-nested ps qs =
    ap (λ q. merge_policies (ps ++ q ∷ [])) (merge_policies-first_policy qs)
    ∙ merge_policies-first_policy (ps ++ first_policy qs ∷ [])
    ∙ first_policy-nested ps qs
    ∙ sym (merge_policies-first_policy (ps ++ qs))
