-- ===== src/Doh/Generations.antt =====
-- internal/dohproxy/proxy.go and internal/dohproxy/clients.go: no client that a generation needs is
-- closed, and none that no generation needs stays open.
use faro.Prelude.{
  nat_eq, ℕ, suc, ◌≤◌, ◌≡◌, refl, sym, ap, subst, ◌∙◌, Bool, true, false, not, ◌&&◌, ◌||◌, List, [],
  ◌∷◌, ◌++◌, Option, some, inl, inr, ◌==◌, arith, ltb, leb, Bool-cases, Option-cases, Result-cases,
  Result, ok, err, if◌then◌else◌,
}
use faro.Strings.{Bytes}
use faro.Domains.{Ip}
use faro.Blocklists.Pass.{has_id}
use faro.Doh.{
  Endpoint, GatewayError, UrlParts, RuntimeConfig, endpoints_for_addresses, validate_endpoint,
  validate_config,
}
use faro.Doh.Gateway.{
  Client, Proxy, clients_of, same_endpoint, find_client, matching_client, holds, close_unused,
  replace_state, Build, Fault, add_client, build_clients, no_clients, finish_build,
  reload_encrypted, reload_config, restore_previous, new_proxy,
}

-- One of the two generations holds the client.
abbrev pub is_held : ℕ → Proxy → Bool
is_held id p = holds id (clients_of p.state) || holds id (clients_of p.previous)

-- Every client that was allocated is either held or closed, and not both.
abbrev pub IsTidy : Proxy → Type 0
IsTidy p =
    (id : ℕ)
    → ((is_held id p || has_id id p.closed) ≡ ltb id p.next_id)
      × ((is_held id p && has_id id p.closed) ≡ false)

has_id-close_unused :
    (id : ℕ) (l keep : List Client) (closed : List ℕ)
    → has_id id (close_unused l keep closed)
      ≡ ((holds id l && not (holds id keep)) || has_id id closed)
unfolding close_unused holds
has_id-close_unused id [] keep closed = refl
has_id-close_unused id (c ∷ l) keep closed = elim (Bool-cases (c.id == id)) [
  | inl y ↦
      let same : c.id ≡ id = ground arith in
      ground (arith, ap (λ i. holds i keep) same, has_id-close_unused id l keep closed)
  | inr n ↦ ground (arith, has_id-close_unused id l keep closed)
]

holds-append : (id : ℕ) (l k : List Client) → holds id (l ++ k) ≡ (holds id l || holds id k)
unfolding holds
holds-append id [] k = refl
holds-append id (c ∷ l) k = ground (arith, holds-append id l k)

first_found :
    (c d : Client) (rest : Option Client) (b : Bool)
    → b ≡ true
    → (if b then some c else rest) ≡ some d
    → c ≡ d
first_found c d rest b y h = ground arith

holds-find_client :
    (e : Endpoint) (l : List Client) (c : Client) → find_client e l ≡ some c → holds c.id l ≡ true
unfolding find_client holds
holds-find_client e [] c h = absurd (ground arith)
holds-find_client e (d ∷ l) c h = elim (Bool-cases (same_endpoint d.endpoint e)) [
  | inl y ↦
      let same : d.id ≡ c.id =
        ap (λ x. x.id) (first_found d c (find_client e l) (same_endpoint d.endpoint e) y h) in
      ground arith
  | inr n ↦ ground (arith, holds-find_client e l c (ground arith))
]

holds-matching_client :
    (e : Endpoint) (p : Proxy) (c : Client) → matching_client e p ≡ some c → is_held c.id p ≡ true
unfolding matching_client
holds-matching_client e p c h = elim (Option-cases (find_client e (clients_of p.state))) [
  | inr (d, a) ↦
      let same : some d ≡ some c = ground arith in
      ground (arith, holds-find_client e (clients_of p.state) c (a ∙ same))
  | inl a ↦ ground (arith, holds-find_client e (clients_of p.previous) c (ground arith))
]

-- The number was allocated since the loop began.
abbrev is_fresh : Proxy → Build → ℕ → Bool
is_fresh p b id = leb p.next_id id && ltb id b.next_id

-- The created clients are the fresh ones, all of them are used, and the others are held already.
abbrev IsBuilt : Proxy → Build → Type 0
IsBuilt p b =
    (p.next_id ≤ b.next_id)
    × ((id : ℕ)
        → (holds id b.created ≡ is_fresh p b id)
          × ((holds id b.clients && not (is_held id p || is_fresh p b id)) ≡ false)
          × ((is_fresh p b id && not (holds id b.clients)) ≡ false))

add_client-IsBuilt_held :
    (p : Proxy) (b : Build) (c : Client)
    → is_held c.id p ≡ true
    → IsBuilt p b
    → IsBuilt p (add_client c false b)
unfolding holds
add_client-IsBuilt_held p b c held (le, built) = (
  le,
  λ id.
      let more = holds-append id b.clients (c ∷ []) in
      elim (Bool-cases (c.id == id)) [
        | inl y ↦
            let same : c.id ≡ id = ground arith in
            let kept : is_held id p ≡ true = subst (λ i. is_held i p ≡ true) same held in
            ((built id).0, ground (arith, kept), ground (arith, (built id).2, more))
        | inr n ↦
            ((built id).0, ground (arith, (built id).1, more), ground (arith, (built id).2, more))
      ],
)

add_client-IsBuilt_fresh :
    (p : Proxy) (b : Build) (e : Endpoint)
    → IsBuilt p b
    → IsBuilt p (
        add_client
          (record { id = b.next_id; endpoint = e })
          true
          (record b { next_id = suc b.next_id }))
unfolding holds
add_client-IsBuilt_fresh p b e (le, built) =
    let c : Client = record { id = b.next_id; endpoint = e } in
    (
      omega (arith, le),
      λ id.
          let more = holds-append id b.clients (c ∷ []) in
          let new = holds-append id b.created (c ∷ []) in
          (
            ground (arith, (built id).0, new, le),
            ground (arith, (built id).1, more, le),
            ground (arith, (built id).2, more, le),
          ),
    )

-- What the loop leaves, with or without a fault.
IsBuiltResult : Proxy → Result Fault Build → Type 0
IsBuiltResult p (ok b) = IsBuilt p b
IsBuiltResult p (err f) = IsBuilt p f.built

build_clients-IsBuilt :
    (check : Endpoint → Result GatewayError (Unit {0})) (p : Proxy) (l : List Endpoint) (b : Build)
    → IsBuilt p b
    → IsBuiltResult p (build_clients check p l b)
unfolding build_clients IsBuiltResult
build_clients-IsBuilt check p [] b h = h
build_clients-IsBuilt check p (e ∷ l) b h =
    let whole = build_clients check p (e ∷ l) b in
    elim (Option-cases (matching_client e p)) [
      | inr (c, a) ↦
          let out : whole ≡ build_clients check p l (add_client c false b) = ground arith in
          subst (IsBuiltResult p) (sym out) (
            build_clients-IsBuilt check p l (add_client c false b)
              (add_client-IsBuilt_held p b c (holds-matching_client e p c a) h))
      | inl a ↦
          let fresh : Client = record { id = b.next_id; endpoint = e } in
          let made = add_client fresh true (record b { next_id = suc b.next_id }) in
          elim (Result-cases (check e)) [
            | inr (f, d) ↦
                let out : whole ≡ err (record { error = f; built = b }) = ground arith in
                subst (IsBuiltResult p) (sym out) h
            | inl (u, d) ↦
                let out : whole ≡ build_clients check p l made = ground arith in
                subst (IsBuiltResult p) (sym out)
                  (build_clients-IsBuilt check p l made (add_client-IsBuilt_fresh p b e h))
          ]
    ]

no_clients-IsBuilt : (p : Proxy) → IsBuilt p (no_clients p)
unfolding holds
no_clients-IsBuilt p = (omega arith, λ id. (ground arith, ground arith, ground arith))

-- Taking over what the loop built.
replace_state-IsTidy :
    (p : Proxy) (b : Build)
    → IsBuilt p b
    → IsTidy p
    → IsTidy (replace_state b.clients (record p { next_id = b.next_id }))
unfolding replace_state
replace_state-IsTidy p b (le, built) t id =
    let kept = holds-append id (clients_of p.state) b.clients in
    let closed =
      has_id-close_unused id (clients_of p.previous) (clients_of p.state ++ b.clients) p.closed in
    (
      ground (arith, t id, kept, closed, built id, le),
      ground (arith, t id, kept, closed, built id, le),
    )

-- Closing what a failed loop created.
close_created-IsTidy :
    (p : Proxy) (b : Build)
    → IsBuilt p b
    → IsTidy p
    → IsTidy (record p { next_id = b.next_id; closed = close_unused b.created [] p.closed })
unfolding holds
close_created-IsTidy p b (le, built) t id =
    let closed = has_id-close_unused id b.created [] p.closed in
    (ground (arith, t id, closed, built id, le), ground (arith, t id, closed, built id, le))

finish_build-IsTidy :
    (p : Proxy) (r : Result Fault Build)
    → IsBuiltResult p r
    → IsTidy p
    → IsTidy (finish_build p r).0
unfolding finish_build IsBuiltResult
finish_build-IsTidy p (ok b) h t = replace_state-IsTidy p b h t
finish_build-IsTidy p (err f) h t = close_created-IsTidy p f.built h t

restore_previous-IsTidy : (p : Proxy) → IsTidy p → IsTidy (restore_previous p)
unfolding restore_previous
restore_previous-IsTidy p t id =
    let closed = has_id-close_unused id (clients_of p.state) (clients_of p.previous) p.closed in
    (ground (arith, t id, closed), ground (arith, t id, closed))

module _ (parse_ip : Bytes → Option Ip) (parse_url : Bytes → Option UrlParts) where
  reload_encrypted-IsTidy :
      (addresses : List Bytes) (p : Proxy)
      → IsTidy p
      → IsTidy (reload_encrypted parse_ip parse_url addresses p).0
  unfolding reload_encrypted
  reload_encrypted-IsTidy addresses p t =
      elim (Result-cases (endpoints_for_addresses parse_ip addresses)) [
        | inr (e, a) ↦
            let out : (reload_encrypted parse_ip parse_url addresses p).0 ≡ p = ground arith in
            subst IsTidy (sym out) t
        | inl (endpoints, a) ↦
            let built =
              build_clients (validate_endpoint parse_ip parse_url) p endpoints (no_clients p) in
            let out : (reload_encrypted parse_ip parse_url addresses p).0
                ≡ (finish_build p built).0 =
              ground arith in
            subst IsTidy (sym out) (
              finish_build-IsTidy p built
                (build_clients-IsBuilt (validate_endpoint parse_ip parse_url) p endpoints
                  (no_clients p) (no_clients-IsBuilt p))
                t)
      ]

  reload_config-IsTidy :
      (config : RuntimeConfig) (p : Proxy)
      → IsTidy p
      → IsTidy (reload_config parse_ip parse_url config p).0
  unfolding reload_config
  reload_config-IsTidy config p t =
      let whole = (reload_config parse_ip parse_url config p).0 in
      elim (Result-cases (validate_config parse_ip config)) [
        | inr (e, a) ↦ let out : whole ≡ p = ground arith in subst IsTidy (sym out) t
        | inl (accepted, a) ↦ elim (Bool-cases accepted.encrypted) [
          | inl y ↦
              let out : whole ≡ (reload_encrypted parse_ip parse_url accepted.addresses p).0 =
                ground arith in
              subst IsTidy (sym out) (reload_encrypted-IsTidy accepted.addresses p t)
          | inr n ↦
              let out : whole ≡ replace_state [] p = ground arith in
              subst IsTidy (sym out)
                (replace_state-IsTidy p (no_clients p) (no_clients-IsBuilt p) t)
        ]
      ]

  -- The calls that change the gateway.
  pub data Call : Type 0 where
    call_reload : RuntimeConfig → Call
    call_restore : Call

  abbrev pub run : List Call → Proxy → Proxy
  run [] p = p
  run (call_reload config ∷ calls) p = run calls (reload_config parse_ip parse_url config p).0
  run (call_restore ∷ calls) p = run calls (restore_previous p)

  run-IsTidy : (calls : List Call) (p : Proxy) → IsTidy p → IsTidy (run calls p)
  run-IsTidy [] p t = t
  run-IsTidy (call_reload config ∷ calls) p t =
      run-IsTidy calls (reload_config parse_ip parse_url config p).0
        (reload_config-IsTidy config p t)
  run-IsTidy (call_restore ∷ calls) p t =
      run-IsTidy calls (restore_previous p) (restore_previous-IsTidy p t)

  new_proxy-IsTidy : IsTidy new_proxy
  unfolding holds
  new_proxy-IsTidy id = (ground arith, refl)

  -- After any history of reloads, accepted or not, and restorations, a client of the gateway is closed
  -- exactly when neither generation holds it: no client that is in use or kept for a rollback was
  -- closed, and every other client that was ever made was.
  pub history-IsTidy : (calls : List Call) → IsTidy (run calls new_proxy)
  history-IsTidy calls = run-IsTidy calls new_proxy new_proxy-IsTidy
