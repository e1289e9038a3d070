-- ===== src/Dial/Binding.antt =====
-- What a decoded binding option promises to `NewDialer`.
use Prim.Native.String.{String}
use enimul.Common.Int.{ℤ}
use enimul.Common.{
  Bool, true, false, not, subst, ◌&&◌, Option, none, some, [], Bytes, bytes_eq, ◌≡◌, ◌≢◌, refl, inl,
  inr, Bool-cases, Option-cases,
}
use enimul.Outcome.Ensures.{Ensures, returns, fails, Ensures-bind}
use enimul.Netip.{Prefix}
use enimul.Dial.{
  Method, method_off, method_select_interface, method_dial_detect, method_custom, BindingOption,
  BindingJson, Env, duration_or, bind_select, bind_detect, bind_custom, chosen_method,
  unmarshal_binding, is_nil, prefix_or_fail, bind_by,
}

-- The fields that `NewDialer` reads for a method are there: a prefix where it has to select by one,
-- an address where they are given by hand.
abbrev pub HasFields : Method → BindingOption → Type 0
HasFields method_off o = Unit
HasFields method_dial_detect o = Unit
HasFields method_custom o = (is_nil o.custom_ipv4 && is_nil o.custom_ipv6) ≡ false
HasFields method_select_interface o =
    (bytes_eq o.zone [] && not o.manual_select) ≡ true → o.preferred_prefix ≢ none

duration_or-Ensures :
    (env : Env) (what : String) (s : Bytes) (old : ℤ)
    → Ensures (λ (d : ℤ). Unit {0}) (duration_or env what s old)
unfolding duration_or
duration_or-Ensures env what s old = elim (Bool-cases (bytes_eq s [])) [
  | inl y ↦ rw (y, duration_or) (returns tt)
  | inr y ↦ elim (Option-cases (env.parse_duration s)) [
    | inl z ↦ rw (y, z, duration_or) fails
    | inr (d, z) ↦ rw (y, z, duration_or) (returns tt)
  ]
]

prefix_or_fail-Ensures : (o : Option Prefix) → Ensures (λ (p : Prefix). Unit {0}) (prefix_or_fail o)
prefix_or_fail-Ensures (some p) = returns tt
prefix_or_fail-Ensures none = fails

-- What the switch leaves of the method, and what it promises for it.
abbrev pub Bound : Method → BindingOption → Type 0
Bound m r = (r.method ≡ m) × HasFields m r

bind_select-Bound :
    (env : Env) (tmp : BindingJson) (o : BindingOption)
    → o.method ≡ method_select_interface
    → Ensures (λ (r : BindingOption). Bound method_select_interface r) (bind_select env tmp o)
unfolding bind_select
bind_select-Bound env tmp o h =
    Ensures-bind
      (duration_or-Ensures env "parse update_interval" tmp.update_interval o.update_interval)
      λ interval _. elim (Bool-cases (bytes_eq tmp.zone [] && not tmp.manual_select)) [
        | inl y ↦ rw y (
            Ensures-bind (prefix_or_fail-Ensures (env.parse_prefix tmp.preferred_prefix))
              (λ p _. returns (h, λ _ none_there. cc)))
        | inr y ↦ rw y (returns (h, λ by_prefix. cc))
      ]

bind_detect-Bound :
    (env : Env) (tmp : BindingJson) (o : BindingOption)
    → o.method ≡ method_dial_detect
    → Ensures (λ (r : BindingOption). Bound method_dial_detect r) (bind_detect env tmp o)
unfolding bind_detect
bind_detect-Bound env tmp o h =
    Ensures-bind
      (duration_or-Ensures env "parse update_interval" tmp.update_interval o.update_interval)
      λ interval _.
        Ensures-bind (duration_or-Ensures env "parse dial_timeout" tmp.dial_timeout o.dial_timeout)
          λ timeout _. returns (h, tt)

bind_custom-Bound :
    (env : Env) (tmp : BindingJson) (o : BindingOption)
    → o.method ≡ method_custom
    → Ensures (λ (r : BindingOption). Bound method_custom r) (bind_custom env tmp o)
unfolding bind_custom
bind_custom-Bound env tmp o h =
    elim (Bool-cases
      (is_nil (env.parse_ip tmp.custom_ipv4) && is_nil (env.parse_ip tmp.custom_ipv6))) [
        | inl y ↦ rw (y, bind_custom) fails
        | inr y ↦ rw (y, bind_custom) (returns (h, y))
      ]

bind_by-Bound :
    (m : Method) (env : Env) (tmp : BindingJson) (o : BindingOption)
    → o.method ≡ m
    → Ensures (λ (r : BindingOption). Bound m r) (bind_by m env tmp o)
bind_by-Bound method_off env tmp o h = returns (h, tt)
bind_by-Bound method_select_interface env tmp o h = bind_select-Bound env tmp o h
bind_by-Bound method_dial_detect env tmp o h = bind_detect-Bound env tmp o h
bind_by-Bound method_custom env tmp o h = bind_custom-Bound env tmp o h

-- The method of an option by cases, where the first flag says that the program runs on Android and
-- the second one that the binding is enabled there: the method asked for is passed over only where
-- the program runs on Android and the binding is not enabled.
abbrev pub method_for : Bool → Bool → Method → Method → Method
method_for true false asked old = old
method_for true true asked old = asked
method_for false false asked old = asked
method_for false true asked old = asked

chosen_method-method_for :
    (env : Env) (tmp : BindingJson) (old : Method)
    → chosen_method env tmp old ≡ method_for env.is_android tmp.enable_for_android tmp.method old
unfolding chosen_method
chosen_method-method_for env tmp old = elim (Bool-cases env.is_android) [
  | inl y ↦ elim (Bool-cases tmp.enable_for_android) [
    | inl z ↦ rw (y, z, chosen_method) refl
    | inr z ↦ rw (y, z, chosen_method) refl
  ]
  | inr y ↦ elim (Bool-cases tmp.enable_for_android) [
    | inl z ↦ rw (y, z, chosen_method) refl
    | inr z ↦ rw (y, z, chosen_method) refl
  ]
]

-- `BindingOption.UnmarshalJSON` does not panic. An option that it returns has the method that was
-- asked for, except on Android where that is not enabled, where it has the method it had before; and
-- it has the fields that its method needs: a prefix where an interface is selected with neither a
-- zone nor by hand, and an address where they are given by hand.
pub unmarshal_binding-Bound :
    (env : Env) (tmp : BindingJson) (o : BindingOption)
    → Ensures
        (λ (r : BindingOption).
          Bound (method_for env.is_android tmp.enable_for_android tmp.method o.method) r)
        (unmarshal_binding env tmp o)
unfolding unmarshal_binding
unmarshal_binding-Bound env tmp o =
    let m = chosen_method env tmp o.method in
    subst
      (λ n.
        Ensures (λ (r : BindingOption). Bound n r) (bind_by m env tmp (record o { method = m })))
      (chosen_method-method_for env tmp o.method)
      (bind_by-Bound m env tmp (record o { method = m }) refl)
