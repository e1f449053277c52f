-- ===== src/Transparent/Connection/Outcomes.antt =====
-- Whose connections proxy/transparent/mod.rs intercepts, and which it lets through.
use mathlib.Core.List.{Mem}
use mathlib.Core.Path.{subst, ap₂}
use vaultproxy.Prelude.{
  Result-cases, ℕ, ◌≡◌, refl, sym, ap, ◌∙◌, ◌⊎◌, inl, inr, Option, none, some, List, text_eq, false,
  Text, ok,
}
use vaultproxy.Transparent.Connect.{ConnectTarget, read_connect_line}
use vaultproxy.Transparent.Connection.{
  UnregisteredPolicy, allowlist, passthrough_hosts, refused, intercepted, tunnelled, by_mode,
  dispatch, connected, handle_connection,
}
use vaultproxy.Transparent.Errors.{TransparentErrorCode}
use vaultproxy.Transparent.Registry.{TransparentRegistry, lookup, build, is_off}
use vaultproxy.Transparent.Registry.Lookup.{Serves, lookup-Serves}
use vaultproxy.Transparent.Service.{
  ServiceEntry, TransparentMode, off, host_inject, placeholder, passthrough,
}

-- Modes with which a service is intercepted.
abbrev pub Injects : TransparentMode → Type 0
Injects mode = (mode ≡ host_inject) ⊎ (mode ≡ placeholder)

by_mode-intercepted :
    (t target : ConnectTarget) (s service : ServiceEntry) (left rest : Text)
    (mode : TransparentMode)
    → by_mode t s left mode ≡ intercepted target service rest
    → Injects mode × (t ≡ target) × (s ≡ service) × (left ≡ rest)
by_mode-intercepted t target s service left rest host_inject h = (inl refl, cc, cc, cc)
by_mode-intercepted t target s service left rest placeholder h = (inr refl, cc, cc, cc)
by_mode-intercepted t target s service left rest off h = cc
by_mode-intercepted t target s service left rest passthrough h = cc

by_mode-tunnelled :
    (t target : ConnectTarget) (s : ServiceEntry) (left rest : Text) (mode : TransparentMode)
    → by_mode t s left mode ≡ tunnelled target rest
    → is_off mode ≡ false
    → (mode ≡ passthrough) × (t ≡ target)
by_mode-tunnelled t target s left rest host_inject h k = cc
by_mode-tunnelled t target s left rest placeholder h k = cc
by_mode-tunnelled t target s left rest off h k = cc
by_mode-tunnelled t target s left rest passthrough h k = (refl, cc)

refused-intercepted :
    {c : TransparentErrorCode} {m left : Text} {t : ConnectTarget} {e : ServiceEntry}
    → refused c m ≡ intercepted t e left
    → ⊥
refused-intercepted h = cc

refused-tunnelled :
    {c : TransparentErrorCode} {m left : Text} {t : ConnectTarget}
    → refused c m ≡ tunnelled t left
    → ⊥
refused-tunnelled h = cc

dispatch-intercepted :
    (policy : UnregisteredPolicy) (t target : ConnectTarget) (e : ServiceEntry) (left rest : Text)
    (o : Option ServiceEntry)
    → dispatch policy t left o ≡ intercepted target e rest
    → (o ≡ some e) × Injects e.transparent_mode × (t ≡ target) × (left ≡ rest)
dispatch-intercepted allowlist t target e left rest none h = cc
dispatch-intercepted passthrough_hosts t target e left rest none h = cc
dispatch-intercepted policy t target e left rest (some s) h =
    let (injects, same, service, others) =
      by_mode-intercepted t target s e left rest s.transparent_mode h in
    (
      ap (λ x. some x) service,
      subst (λ (x : ServiceEntry). Injects x.transparent_mode) service injects,
      same,
      others,
    )

dispatch-tunnelled :
    (t target : ConnectTarget) (left rest : Text) (o : Option ServiceEntry)
    → dispatch allowlist t left o ≡ tunnelled target rest
    → (e : ServiceEntry) × (o ≡ some e)
      × (by_mode t e left e.transparent_mode ≡ tunnelled target rest)
dispatch-tunnelled t target left rest none h = cc
dispatch-tunnelled t target left rest (some e) h = (e, refl, h)

Serves-is_off :
    (to_lowercase : Text → Text) (parse_url : Text → Option (Option Text × Option ℕ))
    (e : ServiceEntry) (name : Text) (port : ℕ)
    → Serves to_lowercase parse_url e name port
    → is_off e.transparent_mode ≡ false
Serves-is_off to_lowercase parse_url e name port (inl claim) = claim.0
Serves-is_off to_lowercase parse_url e name port (inr (pat, claim, fits)) = claim.0

module _ (to_lowercase : Text → Text) (parse_url : Text → Option (Option Text × Option ℕ)) where
  -- A connection is intercepted only after a CONNECT request for a host and a port that a service of
  -- the registry claims, and that service has a mode that injects credentials.
  pub intercepted-Serves :
      (services : List ServiceEntry) (r : TransparentRegistry) (policy : UnregisteredPolicy)
      (stream left : Text) (target : ConnectTarget) (e : ServiceEntry)
      → build to_lowercase parse_url services ≡ ok r
      → handle_connection to_lowercase r policy stream ≡ intercepted target e left
      → (read_connect_line stream ≡ ok (target, left))
        × Mem e services
        × Serves to_lowercase parse_url e target.host target.port
        × Injects e.transparent_mode
  unfolding handle_connection
  intercepted-Serves services r policy stream left target e built h =
      elim (Result-cases (read_connect_line stream)) [
        | inl ((t, rest), read) ↦
            let (found, injects, same, others) =
              dispatch-intercepted policy t target e rest left (lookup to_lowercase r t.host t.port)
                (sym (ap (connected to_lowercase r policy) read) ∙ h) in
            let here =
              ap (λ (x : ConnectTarget). lookup to_lowercase r x.host x.port) (sym same) ∙ found in
            let (member, serves) =
              lookup-Serves to_lowercase parse_url services r e target.host target.port built
                here in
            (read ∙ ap₂ (λ x y. ok (x, y)) same others, member, serves, injects)
        | inr (e', failed) ↦
            absurd (refused-intercepted (sym (ap (connected to_lowercase r policy) failed) ∙ h))
      ]

  -- Under the allowlist policy, a connection is passed on as it is only to a host and a port that a
  -- service of the registry claims whose mode is passthrough.
  pub tunnelled-Serves :
      (services : List ServiceEntry) (r : TransparentRegistry) (stream left : Text)
      (target : ConnectTarget)
      → build to_lowercase parse_url services ≡ ok r
      → handle_connection to_lowercase r allowlist stream ≡ tunnelled target left
      → (e : ServiceEntry) × Mem e services
        × Serves to_lowercase parse_url e target.host target.port
        × (e.transparent_mode ≡ passthrough)
  unfolding handle_connection
  tunnelled-Serves services r stream left target built h =
      elim (Result-cases (read_connect_line stream)) [
        | inl ((t, rest), read) ↦
            let (e, found, mode) =
              dispatch-tunnelled t target rest left (lookup to_lowercase r t.host t.port)
                (sym (ap (connected to_lowercase r allowlist) read) ∙ h) in
            let (member, serves) =
              lookup-Serves to_lowercase parse_url services r e t.host t.port built found in
            let (passes, same) =
              by_mode-tunnelled t target e rest left e.transparent_mode mode
                (Serves-is_off to_lowercase parse_url e t.host t.port serves) in
            (
              e,
              member,
              subst (λ (x : ConnectTarget). Serves to_lowercase parse_url e x.host x.port) same
                  serves,
              passes,
            )
        | inr (e', failed) ↦
            absurd (refused-tunnelled (sym (ap (connected to_lowercase r allowlist) failed) ∙ h))
      ]
