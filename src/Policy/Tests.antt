-- ===== src/Policy/Tests.antt =====
-- Runs of the policies.
use enimul.Common.{none, some, [], ◌∷◌, ◌++◌, ◌≡◌, refl}
use enimul.Common.Int.{pos, negsuc}
use enimul.Outcome.Ensures.{Ensures}
use enimul.Jsonx.{bool_unset, bool_true}
use enimul.Modes.{sniff_unset, mode_ttld, mode_block, dns_unset, dns_ipv6_only}
use enimul.Dst.{zero_dst}
use enimul.Policy.{Policy, PolicyOptions, init_policy, unset_byte}
use enimul.Policy.Checks.{new_policy}
use enimul.Policy.Checks.Validation.{IsValid, new_policy-IsValid}
use enimul.Policy.Merge.{merge_policies}
use enimul.Policy.Merge.Merging.{first_policy, merge_policies-first_policy, merge_policies-nested}

abbrev options : PolicyOptions
options = record {
  sniff_override_mode = sniff_unset;
  reply_first = bool_unset;
  connect_timeout = some (pos 500);
  dial_delay = none;
  host = zero_dst;
  map_to = zero_dst;
  port = none;
  http_status = none;
  tls13_only = bool_unset;
  disable_ech_passthrough = bool_unset;
  mode = mode_ttld;
  dns_mode = dns_unset;
  dns_cache_ttl = none;
  num_records = none;
  num_segments = some (negsuc 0);
  wait_for_ack = bool_unset;
  oob = bool_unset;
  oobex = bool_unset;
  minor_ver = unset_byte;
  send_interval = none;
  fake_sleep = none;
  fake_ttl = none;
  max_ttl = some 12;
  attempts = none;
  single_timeout = none;
  ttl_cache_ttl = none;
}

new_policy-IsValid_example : Ensures IsValid (new_policy options)
new_policy-IsValid_example = new_policy-IsValid options

-- A policy of a domain, one of an address and the default one.
abbrev of_domain : Policy
of_domain = record init_policy { mode = mode_ttld; max_ttl = pos 12 }

abbrev of_address : Policy
of_address = record init_policy { mode = mode_block; port = pos 8443 }

abbrev default : Policy
default = record init_policy { dns_mode = dns_ipv6_only; max_ttl = pos 20; oob = bool_true }

merge_policies-first_policy_example :
    merge_policies (of_domain ∷ of_address ∷ default ∷ [])
    ≡ first_policy (of_domain ∷ of_address ∷ default ∷ [])
merge_policies-first_policy_example =
    merge_policies-first_policy (of_domain ∷ of_address ∷ default ∷ [])

merge_policies_run : merge_policies (of_domain ∷ of_address ∷ default ∷ []) ≡ record init_policy {
  mode = mode_ttld;
  max_ttl = pos 12;
  port = pos 8443;
  dns_mode = dns_ipv6_only;
  oob = bool_true;
}
unfolding merge_policies
merge_policies_run = refl

merge_policies-nested_example :
    merge_policies ((of_domain ∷ []) ++ merge_policies (of_address ∷ default ∷ []) ∷ [])
    ≡ merge_policies ((of_domain ∷ []) ++ of_address ∷ default ∷ [])
merge_policies-nested_example = merge_policies-nested (of_domain ∷ []) (of_address ∷ default ∷ [])
