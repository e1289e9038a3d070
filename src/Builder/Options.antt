-- ===== src/Builder/Options.antt =====
-- internal/core/core.go, dns.go, desync.go, ippool.go: the records of a configuration.
use enimul.Common.{ℕ, Bool, false, Option, none, List, [], Bytes}
use enimul.Common.Int.{ℤ}
use enimul.Jsonx.{bool_unset}
use enimul.Modes.{sniff_unset, mode_unset, dns_unset}
use enimul.Dst.{Dst, zero_dst}
use enimul.Dial.{BindingOption}
use enimul.Jsonx.OrderedMap.{OrderedMap}
use enimul.Policy.{PolicyOptions, unset_byte}

-- `log.Level`
pub data Level : Type 0 where
  level_unset level_trace level_debug level_info level_warn level_error disabled : Level

-- `DNSConfig`
pub record DnsConfig : Type 0 where
  pub kind : Bytes
  pub addr : Bytes
  pub single_flight : Bool
  pub disable_cache : Bool
  pub cache_capacity : ℕ
  pub edns0_subnet : Bytes
  pub udp_size : ℕ
  pub client_timeout : Bytes
  pub wait_timeout : Bytes
  pub min_rtt : Bytes
  pub qtype2 : Bytes
  pub doh_outbound : Bytes

-- `TTLProbingConfig`
pub record TtlProbingConfig : Type 0 where
  pub fake_ttl_rules : Bytes
  pub single_flight : Bool
  pub disable_cache : Bool
  pub cache_capacity : ℕ

-- `IPPoolOptions`
pub record IpPoolOptions : Type 0 where
  pub wait_scan_on_startup : Bool
  pub multi : Bool
  pub fallback_ip : Dst
  pub ips : List Bytes
  pub excluded_ips : List Bytes
  pub port : ℕ
  pub top_ip_count : ℤ
  pub max_concurrency : ℤ
  pub timeout : Bytes
  pub update_interval : Bytes
  pub attempts : ℤ

-- `Config`; a nil pointer is `none`, and the map of the pools an association list.
pub record Config : Type 0 where
  pub log_level : Level
  pub log_output : Option Bytes
  pub socks5_addr : Option Bytes
  pub http_addr : Option Bytes
  pub sni_proxy_addr : Option Bytes
  pub outbound_binding : Option BindingOption
  pub dns_config : Option DnsConfig
  pub ttl_probing_config : Option TtlProbingConfig
  pub ip_pools : List (Bytes × IpPoolOptions)
  pub hosts : OrderedMap Dst
  pub default_policy : Option PolicyOptions
  pub domain_policies : OrderedMap PolicyOptions
  pub ip_policies : OrderedMap PolicyOptions

-- The zero values of `new(DNSConfig)`, `new(TTLProbingConfig)` and `PolicyOptions`.
abbrev pub zero_dns : DnsConfig
zero_dns = record {
  kind = [];
  addr = [];
  single_flight = false;
  disable_cache = false;
  cache_capacity = 0;
  edns0_subnet = [];
  udp_size = 0;
  client_timeout = [];
  wait_timeout = [];
  min_rtt = [];
  qtype2 = [];
  doh_outbound = [];
}

abbrev pub zero_ttl : TtlProbingConfig
zero_ttl = record {
  fake_ttl_rules = [];
  single_flight = false;
  disable_cache = false;
  cache_capacity = 0;
}

abbrev pub zero_options : PolicyOptions
zero_options = record {
  sniff_override_mode = sniff_unset;
  reply_first = bool_unset;
  connect_timeout = none;
  dial_delay = none;
  host = zero_dst;
  map_to = zero_dst;
  port = none;
  http_status = none;
  tls13_only = bool_unset;
  disable_ech_passthrough = bool_unset;
  mode = mode_unset;
  dns_mode = dns_unset;
  dns_cache_ttl = none;
  num_records = none;
  num_segments = none;
  wait_for_ack = bool_unset;
  oob = bool_unset;
  oobex = bool_unset;
  minor_ver = unset_byte;
  send_interval = none;
  fake_sleep = none;
  fake_ttl = none;
  max_ttl = none;
  attempts = none;
  single_timeout = none;
  ttl_cache_ttl = none;
}
