-- ===== src/Dial.antt =====
-- internal/dial/option.go: the option that binds outgoing connections to a local address.
pub mod Binding
mod Tests
use Prim.Native.String.{String}
use enimul.Common.{
  ℕ, Bool, true, false, not, ◌&&◌, ◌||◌, Option, none, some, [], if◌then◌else◌, Bytes, bytes_eq,
}
use enimul.Common.Int.{ℤ, pos}
use enimul.Common.Result.{Error, msg, msg_with, op_error, external}
use enimul.Outcome.{Outcome, ok, failed, panic, ◌>>=◌}
use enimul.Netip.{Addr, invalid, Prefix}

-- `Method`
pub data Method : Type 0 where
  method_off method_select_interface method_dial_detect method_custom : Method

-- `BindingOption`. A duration is its number of nanoseconds, a nil `net.IP` is `none`.
pub record BindingOption : Type 0 where
  pub method : Method
  pub manual_select : Bool
  pub zone : Bytes
  pub preferred_prefix : Option Prefix
  pub update_interval : ℤ
  pub dial_tcp : Bool
  pub dial_ipv4_target : Bytes
  pub dial_ipv6_target : Bytes
  pub dial_timeout : ℤ
  pub custom_ipv4 : Option Addr
  pub custom_ipv6 : Option Addr
  pub custom_zone : Bytes

-- The zero `BindingOption`.
abbrev pub zero_binding : BindingOption
zero_binding = record {
  method = method_off;
  manual_select = false;
  zone = [];
  preferred_prefix = none;
  update_interval = pos 0;
  dial_tcp = false;
  dial_ipv4_target = [];
  dial_ipv6_target = [];
  dial_timeout = pos 0;
  custom_ipv4 = none;
  custom_ipv6 = none;
  custom_zone = [];
}

-- The local `tmp` of `UnmarshalJSON`.
pub record BindingJson : Type 0 where
  pub enable_for_android : Bool
  pub method : Method
  pub manual_select : Bool
  pub zone : Bytes
  pub preferred_prefix : Bytes
  pub update_interval : Bytes
  pub dial_tcp : Bool
  pub dial_ipv4_target : Bytes
  pub dial_ipv6_target : Bytes
  pub dial_timeout : Bytes
  pub custom_ipv4 : Bytes
  pub custom_ipv6 : Bytes
  pub custom_zone : Bytes

-- What this part uses of Go's libraries; `none` is an error, for `net.ParseIP` nil.
pub record Env : Type 0 where
  pub is_android : Bool
  pub parse_duration : Bytes → Option ℤ
  pub parse_prefix : Bytes → Option Prefix
  pub parse_ip : Bytes → Option Addr

-- `if s != "" { d, err = time.ParseDuration(s) }`, over the old value.
unfoldable pub duration_or : Env → String → Bytes → ℤ → Outcome ℤ
unfolding bytes_eq
duration_or env what s old =
    if bytes_eq s []
    then ok old
    else elim (env.parse_duration s) [ some d ↦ ok d | none ↦ failed (op_error what (external 0)) ]

abbrev pub prefix_or_fail : Option Prefix → Outcome Prefix
prefix_or_fail (some p) = ok p
prefix_or_fail none = failed (op_error "parse preferred_prefix" (external 0))

-- The cases of the switch on the method, over the option with its method set.
unfoldable pub bind_select : Env → BindingJson → BindingOption → Outcome BindingOption
unfolding duration_or bytes_eq
bind_select env tmp o = do
  interval ← duration_or env "parse update_interval" tmp.update_interval o.update_interval
  let chosen = record o {
    update_interval = interval;
    manual_select = tmp.manual_select;
    zone = tmp.zone;
  }
  if bytes_eq tmp.zone [] && not tmp.manual_select
      then (prefix_or_fail (env.parse_prefix tmp.preferred_prefix) >>= λ p.
          ok (record chosen { preferred_prefix = some p }))
      else ok chosen

unfoldable pub bind_detect : Env → BindingJson → BindingOption → Outcome BindingOption
unfolding duration_or
bind_detect env tmp o = do
  interval ← duration_or env "parse update_interval" tmp.update_interval o.update_interval
  timeout ← duration_or env "parse dial_timeout" tmp.dial_timeout o.dial_timeout
  ok (record o {
    update_interval = interval;
    dial_timeout = timeout;
    dial_tcp = tmp.dial_tcp;
    dial_ipv4_target = tmp.dial_ipv4_target;
    dial_ipv6_target = tmp.dial_ipv6_target;
  })

abbrev pub is_nil : Option Addr → Bool
is_nil none = true
is_nil (some a) = false

unfoldable pub bind_custom : Env → BindingJson → BindingOption → Outcome BindingOption
bind_custom env tmp o =
    let ipv4 = env.parse_ip tmp.custom_ipv4 in
    let ipv6 = env.parse_ip tmp.custom_ipv6 in
    if is_nil ipv4 && is_nil ipv6
    then failed (msg "no custom IPv4 or IPv6 address specified")
    else ok (record o { custom_ipv4 = ipv4; custom_ipv6 = ipv6; custom_zone = tmp.custom_zone })

abbrev pub bind_by : Method → Env → BindingJson → BindingOption → Outcome BindingOption
bind_by method_off env tmp o = ok o
bind_by method_select_interface env tmp o = bind_select env tmp o
bind_by method_dial_detect env tmp o = bind_detect env tmp o
bind_by method_custom env tmp o = bind_custom env tmp o

-- `if runtime.GOOS != "android" || tmp.EnableForAndroid { o.Method = tmp.Method }`
unfoldable pub chosen_method : Env → BindingJson → Method → Method
chosen_method env tmp old = if not env.is_android || tmp.enable_for_android then tmp.method else old

-- `BindingOption.UnmarshalJSON` behind encoding/json; `tmp` is what it decodes.
unfoldable pub unmarshal_binding : Env → BindingJson → BindingOption → Outcome BindingOption
unfolding chosen_method bind_select bind_detect bind_custom
unmarshal_binding env tmp o =
    let method = chosen_method env tmp o.method in
    bind_by method env tmp (record o { method = method })
