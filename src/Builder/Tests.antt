-- ===== src/Builder/Tests.antt =====
-- A merge of two configurations, and the theorems on the tables at it.
use enimul.Common.{if◌then◌else◌, none, some, List, [], ◌∷◌, ◌≡◌, refl, Bytes, bytes_eq}
use enimul.Outcome.{Outcome, ok}
use enimul.Netip.{v4, Parsers}
use enimul.AddrTrie.Domain.Routes.{lookup_name}
use enimul.Dst.{Dst, new_single_dst}
use enimul.Modes.{mode_direct}
use enimul.Policy.{Policy}
use enimul.Policy.Checks.{new_policy}
use enimul.Routing.{get_domain_policy, get_hosts, get_ip_policy}
use enimul.Routing.Tables.{route}
use enimul.Builder.Options.{Config, level_unset, zero_options}
use enimul.Builder.{Builder, new_builder, policy_of, merge_all, route_matcher}
use enimul.Builder.Tables.{table}
use enimul.Builder.Addresses.{rows_v4, rows_v6}
use enimul.Builder.Router.{
  entries, domain_part, ip_part, host_part, merge_all-lookup_name, merge_all-route,
}

-- Parsers that know one address and one network.
abbrev one_each : Parsers
one_each = record {
  parse_addr = λ s. if bytes_eq s (b'1' ∷ []) then some (v4 1) else none;
  parse_prefix =
      λ s. if bytes_eq s (b'n' ∷ []) then some (record { addr = v4 0; bits = 8 }) else none;
}

abbrev blank : Config
blank = record {
  log_level = level_unset;
  log_output = none;
  socks5_addr = none;
  http_addr = none;
  sni_proxy_addr = none;
  outbound_binding = none;
  dns_config = none;
  ttl_probing_config = none;
  ip_pools = [];
  hosts = record { keys = []; values = [] };
  default_policy = none;
  domain_policies = record { keys = []; values = [] };
  ip_policies = record { keys = []; values = [] };
}

-- "*.(a|b)"
abbrev names_key : Bytes
names_key = b'*' ∷ b'.' ∷ b'(' ∷ b'a' ∷ b'|' ∷ b'b' ∷ b')' ∷ []

-- "n;1"
abbrev ips_key : Bytes
ips_key = b'n' ∷ b';' ∷ b'1' ∷ []

abbrev first : Config
first = record blank {
  domain_policies = record {
    keys = names_key ∷ [];
    values = (names_key, record zero_options { mode = mode_direct }) ∷ [];
  };
  hosts = record {
    keys = (b'h' ∷ b'.' ∷ b'a' ∷ []) ∷ [];
    values = (b'h' ∷ b'.' ∷ b'a' ∷ [], new_single_dst (b'1' ∷ [])) ∷ [];
  };
}

abbrev second : Config
second = record blank {
  ip_policies = record {
    keys = ips_key ∷ [];
    values = (ips_key, record zero_options { mode = mode_direct }) ∷ [];
  };
}

abbrev built_or_new : Outcome Builder → Builder
built_or_new (ok b) = b
built_or_new _ = new_builder

abbrev merged : Builder
unfolding merge_all new_policy
merged = built_or_new (merge_all one_each (first ∷ second ∷ []) new_builder)

merges : merge_all one_each (first ∷ second ∷ []) new_builder ≡ ok merged
unfolding merge_all new_policy
merges = refl

merge_all-lookup_name_example :
    ((es : List (Bytes × Policy)) × (table policy_of (entries domain_part (first ∷ second ∷ []))
        ≡ ok es)
      × (get_domain_policy (route_matcher merged) (b'x' ∷ b'.' ∷ b'a' ∷ [])
          ≡ lookup_name es (b'x' ∷ b'.' ∷ b'a' ∷ [])))
    × ((hs : List (Bytes × Dst)) × (table Outcome.ok (entries host_part (first ∷ second ∷ []))
          ≡ ok hs)
        × (get_hosts (route_matcher merged) (b'x' ∷ b'.' ∷ b'a' ∷ [])
            ≡ lookup_name hs (b'x' ∷ b'.' ∷ b'a' ∷ [])))
merge_all-lookup_name_example =
    merge_all-lookup_name one_each (first ∷ second ∷ []) merged (b'x' ∷ b'.' ∷ b'a' ∷ []) merges

merge_all-route_example :
    (es : List (Bytes × Policy)) × (table policy_of (entries ip_part (first ∷ second ∷ [])) ≡ ok es)
    × (get_ip_policy (route_matcher merged) (v4 7)
        ≡ ok (route one_each (rows_v4 es) (rows_v6 es) (v4 7)))
merge_all-route_example =
    merge_all-route one_each (first ∷ second ∷ []) merged (v4 7) merges (λ e. cc)
