-- ===== src/Dial/Tests.antt =====
-- Runs of the decoding of a binding option, and its theorem at an input.
use enimul.Common.{true, false, none, some, [], ◌∷◌, ◌≡◌, refl, bytes_eq}
use enimul.Common.Int.{pos}
use enimul.Common.Result.{msg}
use enimul.Outcome.{failed}
use enimul.Outcome.Ensures.{Ensures}
use enimul.Netip.{v4}
use enimul.Dial.{
  method_off, method_select_interface, method_custom, BindingOption, zero_binding, BindingJson, Env,
  unmarshal_binding,
}
use enimul.Dial.Binding.{Bound, unmarshal_binding-Bound}

abbrev linux : Env
linux = record {
  is_android = false;
  parse_duration = λ s. some (pos 60);
  parse_prefix = λ s. some (record { addr = v4 0; bits = 8 });
  parse_ip = λ s. none;
}

abbrev android : Env
android = record linux { is_android = true }

abbrev by_prefix : BindingJson
by_prefix = record {
  enable_for_android = false;
  method = method_select_interface;
  manual_select = false;
  zone = [];
  preferred_prefix = b'0' ∷ [];
  update_interval = b'1' ∷ b'm' ∷ [];
  dial_tcp = false;
  dial_ipv4_target = [];
  dial_ipv6_target = [];
  dial_timeout = [];
  custom_ipv4 = [];
  custom_ipv6 = [];
  custom_zone = [];
}

custom_without_address :
    unmarshal_binding linux (record by_prefix { method = method_custom }) zero_binding
    ≡ failed (msg "no custom IPv4 or IPv6 address specified")
unfolding unmarshal_binding bytes_eq
custom_without_address = refl

unmarshal_binding-Bound_example :
    Ensures
      (λ (r : BindingOption). Bound method_off r)
      (unmarshal_binding android by_prefix zero_binding)
unmarshal_binding-Bound_example = unmarshal_binding-Bound android by_prefix zero_binding
