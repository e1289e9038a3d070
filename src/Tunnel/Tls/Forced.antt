-- ===== src/Tunnel/Tls/Forced.antt =====
-- The mode that the search for the server name in `handleTLS` forces.
use enimul.Common.{
  ℕ, ◌+◌, Bool, not, ◌&&◌, ◌||◌, Option, none, some, true, false, ◌≡◌, refl, sym, ◌⊎◌, inl, inr,
  if◌then◌else◌, Bool-cases, Option-cases, Bytes, bytes_eq, arith, subst,
}
use enimul.Common.Int.{pos, leb_ℤ}
use enimul.Outcome.{Outcome, ok, failed, panic}
use enimul.Jsonx.{is_true}
use enimul.Fragment.{slice?}
use enimul.Modes.{
  SniffOverrideMode, sniff_unset, sniff_off, sniff_always, sniff_policy_exists, sniff_route_only,
  Mode, mode_unset, mode_direct,
}
use enimul.ClientHello.{Hello}
use enimul.Dst.{Dst}
use enimul.Policy.{Policy}
use enimul.Routing.{get_domain_policy}
use enimul.Routing.Evaluator.{Generated, chosen, gave_up, blocked, domain_not_found, gen_policy}
use enimul.Tunnel.{Session, Env, stop, go, lift, >>=-eq-go, check_tls13_only}
use enimul.Tunnel.Tls.{
  is_tls_alert, is_policy_exists, check_mode, route_only, redirect, override, sniff, start_of,
  choose_mode,
}

pub go_parts {ℓ} : {A : Type ℓ} {s s' : Session} {u v : A} → go s u ≡ go s' v → (s ≡ s') × (u ≡ v)
go_parts h = (cc, cc)

pub lift-eq-go {ℓ} :
    {A : Type ℓ} (s : Session) (o : Outcome A) {u : Session} {a : A}
    → lift s o ≡ go u a
    → (o ≡ ok a) × (s ≡ u)
lift-eq-go s panic h = cc
lift-eq-go s (failed e) h = cc
lift-eq-go s (ok b) h = (cc, cc)

-- No mode is forced, or the ClientHello has no name or an encrypted one and is written as it is.
abbrev pub Forces : Hello → Mode → Type 0
Forces hello m =
    (m ≡ mode_unset)
    ⊎ ((m ≡ mode_direct) × ((leb_ℤ hello.sni_start (pos 0) || hello.has_ech) ≡ true))

route_only-unset :
    (env : Env) (hello : Hello) (sni : Bytes) (s u : Session) (m : Mode)
    → route_only env hello sni s ≡ go u m
    → m ≡ mode_unset
unfolding route_only
route_only-unset env hello sni s u m h =
    elim (Option-cases (get_domain_policy env.evaluator.matcher sni)) [
      | inl y ↦ sym (go_parts (rw (y, route_only) at h)).1
      | inr (p, y) ↦
          let (u1, _, _, h1) =
            >>=-eq-go (check_mode p.mode hello.prt_ver s) _ (rw (y, route_only) at h) in
          let (u2, _, _, h2) =
            >>=-eq-go (check_tls13_only hello.is_tls13 p hello.prt_ver u1) _ h1 in
          sym (go_parts h2).1
    ]

-- The end of `redirect`, behind its connection.
made-unset :
    (made : Option ℕ) (with_conn : ℕ → Session) (proxied : Bool) (s u : Session) (m : Mode)
    → elim made [
      | some c ↦ go (with_conn c) mode_unset
      | none ↦ if proxied then stop s else go s mode_unset
    ]
      ≡ go u m
    → m ≡ mode_unset
made-unset (some c) with_conn proxied s u m h = sym (go_parts h).1
made-unset none with_conn true s u m h = cc
made-unset none with_conn false s u m h = sym (go_parts h).1

redirect-unset :
    (env : Env) (hello : Hello) (dst : Dst) (p : Policy) (s u : Session) (m : Mode)
    → redirect env hello dst p s ≡ go u m
    → m ≡ mode_unset
unfolding redirect
redirect-unset env hello dst p s u m h = elim (Bool-cases (is_tls_alert p.mode)) [
  | inl y ↦ cc (rw (y, redirect) at h)
  | inr y ↦
      let (u1, _, _, h1) =
        >>=-eq-go (check_tls13_only hello.is_tls13 p hello.prt_ver s) _ (rw (y, redirect) at h) in
      made-unset _ _ s.from_sni_proxy _ u m h1
]

override-unset :
    (env : Env) (hello : Hello) (sni : Bytes) (s u : Session) (m : Mode)
    → override env hello sni s ≡ go u m
    → m ≡ mode_unset
unfolding override
override-unset env hello sni s u m h =
    let (u1, found, lifted, h1) =
      >>=-eq-go
        (lift s (
          gen_policy env.evaluator sni false
            (not s.from_sni_proxy && is_policy_exists s.policy.sniff_override_mode)))
        _ h in
    by_found found u1 h1
  where
    by_found :
        (found : Generated) (u1 : Session)
        → elim found [
          | gave_up ↦ if s.from_sni_proxy then stop s else go s mode_unset
          | domain_not_found ↦ go s mode_unset
          | blocked ↦ stop s
          | chosen dst p ↦ redirect env hello dst p s
        ]
          ≡ go u m
        → m ≡ mode_unset
    by_found gave_up u1 e = elim (Bool-cases s.from_sni_proxy) [
      | inl y ↦ cc (rw y at e)
      | inr y ↦ sym (go_parts (rw y at e)).1
    ]
    by_found domain_not_found u1 e = sym (go_parts e).1
    by_found blocked u1 e = cc
    by_found (chosen dst p) u1 e = redirect-unset env hello dst p s u m e

sniff-unset :
    (mode : SniffOverrideMode) (env : Env) (hello : Hello) (sni : Bytes) (s u : Session) (m : Mode)
    → sniff mode env hello sni s ≡ go u m
    → m ≡ mode_unset
unfolding sniff
sniff-unset sniff_route_only env hello sni s u m h = route_only-unset env hello sni s u m h
sniff-unset sniff_always env hello sni s u m h = override-unset env hello sni s u m h
sniff-unset sniff_policy_exists env hello sni s u m h = override-unset env hello sni s u m h
sniff-unset sniff_unset env hello sni s u m h = sym (go_parts h).1
sniff-unset sniff_off env hello sni s u m h = sym (go_parts h).1

direct-Forces :
    (hello : Hello) (forced : Mode) (proxied : Bool) (s u : Session) (m : Mode)
    → Forces hello forced
    → (if proxied then stop s else go s forced) ≡ go u m
    → Forces hello m
direct-Forces hello forced true s u m f h = cc
direct-Forces hello forced false s u m f h = subst (Forces hello) (go_parts h).1 f

-- A mode is forced only without a name, or with an encrypted one.
pub choose_mode-Forces :
    (env : Env) (hello : Hello) (rec : Bytes) (s u : Session) (m : Mode)
    → choose_mode env hello rec s ≡ go u m
    → Forces hello m
unfolding choose_mode
choose_mode-Forces env hello rec s u m h = elim (Bool-cases (leb_ℤ hello.sni_start (pos 0))) [
  | inl y ↦
      direct-Forces hello mode_direct s.from_sni_proxy s u m (inr (refl, rw y refl))
        (rw (y, choose_mode) at h)
  | inr y ↦
      let (u1, name, _, h1) =
        >>=-eq-go
          (lift s
            (slice? rec (start_of hello.sni_start) (start_of hello.sni_start + hello.sni_len)))
          _ (rw (y, choose_mode) at h) in
      by_rest name h1
]
  where
    by_ech :
        hello.has_ech ≡ true
        → (if s.from_sni_proxy
            then stop s
            else go s
                (if is_true s.policy.disable_ech_passthrough then mode_unset else mode_direct))
          ≡ go u m
        → Forces hello m
    by_ech z e = elim (Bool-cases (is_true s.policy.disable_ech_passthrough)) [
      | inl w ↦ direct-Forces hello mode_unset s.from_sni_proxy s u m (inl refl) (rw w at e)
      | inr w ↦
          direct-Forces hello mode_direct s.from_sni_proxy s u m (inr (refl, ground arith))
            (rw w at e)
    ]

    by_name :
        (name : Bytes)
        → (if s.from_sni_proxy || not (bytes_eq s.origin_host name)
            then sniff s.policy.sniff_override_mode env hello name
                (if s.from_sni_proxy then record s { origin_host = name } else s)
            else go s mode_unset)
          ≡ go u m
        → Forces hello m
    by_name name e = elim (Bool-cases (s.from_sni_proxy || not (bytes_eq s.origin_host name))) [
      | inl w ↦ inl (sniff-unset s.policy.sniff_override_mode env hello name _ u m (rw w at e))
      | inr w ↦ inl (sym (go_parts (rw w at e)).1)
    ]

    by_rest :
        (name : Bytes)
        → (if hello.has_ech
            then (if s.from_sni_proxy
                then stop s
                else go s
                    (if is_true s.policy.disable_ech_passthrough then mode_unset else mode_direct))
            else if s.from_sni_proxy || not (bytes_eq s.origin_host name)
            then sniff s.policy.sniff_override_mode env hello name
                (if s.from_sni_proxy then record s { origin_host = name } else s)
            else go s mode_unset)
          ≡ go u m
        → Forces hello m
    by_rest name e = elim (Bool-cases hello.has_ech) [
      | inl z ↦ by_ech z (simp z at e)
      | inr z ↦ by_name name (simp z at e)
    ]
