-- ===== src/Doh/Hooks.antt =====
-- cmd/faro-api/main.go: the gateway as the transport of `Apply`. The hooks are `Reload` from the
-- settings, `RestorePrevious`, and the publication of the accepted configuration.
use faro.Prelude.{
  ◌≡◌, refl, sym, subst, Bool, List, [], Option, none, some, arith, Bool-cases, Result-cases, inl,
  inr, Result, ok, err, if◌then◌else◌,
}
use faro.Strings.{Bytes}
use faro.Domains.{Ip}
use faro.Coredns.Errors.{ApplyError}
use faro.Coredns.Corefile.{Files}
use faro.Coredns.Apply.{World, Transport, State, apply}
use faro.Coredns.Contents.{Restores}
use faro.Coredns.Atomic.{apply_failure-IsUndone}
use faro.Policy.Settings.{SettingsMap}
use faro.Doh.{
  GatewayError, UrlParts, RuntimeConfig, endpoints_for_addresses, validate_endpoint,
  validate_config, runtime_config_from_store,
}
use faro.Doh.Gateway.{
  Client, Proxy, Build, Fault, build_clients, no_clients, finish_build, replace_state,
  reload_encrypted, reload_config, restore_previous,
}

-- A reload without an error keeps the state that it replaces as the generation before it.
IsKept : Proxy → Proxy × Option GatewayError → Type 0
IsKept p (q, none) = (q.previous ≡ p.state)
IsKept p (q, some e) = Unit

replace_state-IsKept : (next : List Client) (p : Proxy) → IsKept p (replace_state next p, none)
unfolding replace_state IsKept
replace_state-IsKept next p = refl

module _ (parse_ip : Bytes → Option Ip) (parse_url : Bytes → Option UrlParts) where
  finish_build-IsKept : (p : Proxy) (r : Result Fault Build) → IsKept p (finish_build p r)
  unfolding finish_build replace_state IsKept
  finish_build-IsKept p (ok b) = refl
  finish_build-IsKept p (err f) = tt

  reload_config-IsKept :
      (config : RuntimeConfig) (p : Proxy) → IsKept p (reload_config parse_ip parse_url config p)
  unfolding reload_config reload_encrypted IsKept
  reload_config-IsKept config p =
      let whole = reload_config parse_ip parse_url config p in
      elim (Result-cases (validate_config parse_ip config)) [
        | inr (e, a) ↦ let out : whole ≡ (p, some e) = ground arith in subst (IsKept p) (sym out) tt
        | inl (accepted, a) ↦ elim (Bool-cases accepted.encrypted) [
          | inr n ↦
              let out : whole ≡ (replace_state [] p, none) = ground arith in
              subst (IsKept p) (sym out) (replace_state-IsKept [] p)
          | inl y ↦ elim (Result-cases (endpoints_for_addresses parse_ip accepted.addresses)) [
            | inr (e, b) ↦
                let out : whole ≡ (p, some e) = ground arith in subst (IsKept p) (sym out) tt
            | inl (endpoints, b) ↦
                let built =
                  build_clients (validate_endpoint parse_ip parse_url) p endpoints (no_clients p) in
                let out : whole ≡ finish_build p built = ground arith in
                subst (IsKept p) (sym out) (finish_build-IsKept p built)
          ]
        ]
      ]

  abbrev pub if_fine : Proxy × Option GatewayError → Option Proxy
  if_fine (p, none) = some p
  if_fine (p, some e) = none

  rolled_back :
      (p : Proxy) (r : Proxy × Option GatewayError) (q : Proxy)
      → IsKept p r
      → if_fine r ≡ some q
      → (restore_previous q).state ≡ p.state
  unfolding IsKept restore_previous
  rolled_back p (u, none) q h e =
      let same : u ≡ q = ground arith in subst (λ x. x.previous ≡ p.state) same h
  rolled_back p (u, some f) q h e = absurd (ground arith)

  -- The hooks that `main` installs; `written` is whether `WriteRuntimeConfigFromStore` succeeds. A
  -- reload that fails leaves both generations, and what it made is closed again.
  unfoldable gateway : SettingsMap → Bool → Transport (Option (List Client))
  unfolding reload_config restore_previous runtime_config_from_store
  gateway settings written = record {
    State = Proxy;
    live = λ p. p.state;
    before_apply =
        λ p. if_fine (reload_config parse_ip parse_url (runtime_config_from_store settings) p);
    rollback_apply = λ p. some (restore_previous p);
    commit_apply = λ p. if written then some p else none;
    rollback_restores = λ p q e. (
      restore_previous q,
      refl,
      rolled_back p (reload_config parse_ip parse_url (runtime_config_from_store settings) p) q
          (reload_config-IsKept (runtime_config_from_store settings) p) e,
    );
  }

  -- `Apply` that returns an error, where the calls that restore files succeed, leaves the gateway with
  -- the clients that it had.
  apply_failure-gateway :
      (settings : SettingsMap) (written : Bool) (w : World) (rendered : Result ApplyError Files)
      (s : State (gateway settings written)) (e : ApplyError)
      → Restores w.disk
      → (apply (gateway settings written) w rendered s).1 ≡ some e
      → let hooks = gateway settings written in
        hooks.live (apply hooks w rendered s).0.transport ≡ hooks.live s.transport
  apply_failure-gateway settings written w rendered s e r h =
      (apply_failure-IsUndone (gateway settings written) w rendered s e r h).0.live
