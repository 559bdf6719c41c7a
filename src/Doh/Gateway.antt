-- ===== src/Doh/Gateway.antt =====
-- internal/dohproxy/proxy.go and internal/dohproxy/clients.go: the two generations of clients of the
-- gateway. A client is the number of its allocation, which stands for its pointer. `reloadMu` makes
-- each call one step.
use faro.Prelude.{
  nat_eq, ℕ, suc, Bool, true, false, ◌&&◌, ◌||◌, List, [], ◌∷◌, ◌++◌, Option, none, some,
  if◌then◌else◌, ◌==◌, Result, ok, err,
}
use faro.Strings.{Bytes, bytes_eq}
use faro.Domains.{Ip}
use faro.Doh.{
  Endpoint, GatewayError, UrlParts, RuntimeConfig, endpoints_for_addresses, validate_endpoint,
  validate_config,
}

-- `endpointClient`
pub record Client : Type 0 where
  pub id : ℕ
  pub endpoint : Endpoint

-- `Proxy`: `none` is the nil pointer. `closed` are the clients whose connections were closed.
pub record Proxy : Type 0 where
  pub state : Option (List Client)
  pub previous : Option (List Client)
  pub next_id : ℕ
  pub closed : List ℕ

-- `New`
abbrev pub new_proxy : Proxy
new_proxy = record { state = none; previous = none; next_id = 0; closed = [] }

abbrev pub clients_of : Option (List Client) → List Client
clients_of none = []
clients_of (some l) = l

unfoldable pub same_list : List Bytes → List Bytes → Bool
same_list [] [] = true
same_list (s ∷ l) (t ∷ k) = s == t && same_list l k
same_list _ _ = false

unfoldable pub same_endpoint : Endpoint → Endpoint → Bool
unfolding same_list
same_endpoint e f = e.url == f.url && same_list e.bootstrap_ips f.bootstrap_ips

unfoldable pub find_client : Endpoint → List Client → Option Client
unfolding same_endpoint
find_client e [] = none
find_client e (c ∷ l) = if same_endpoint c.endpoint e then some c else find_client e l

abbrev pub first_of : Option Client → Option Client → Option Client
first_of none d = d
first_of (some c) d = some c

-- `matchingClient` over the two generations.
unfoldable pub matching_client : Endpoint → Proxy → Option Client
unfolding find_client
matching_client e p =
    first_of (find_client e (clients_of p.state)) (find_client e (clients_of p.previous))

-- A client is in the list.
unfoldable pub holds : ℕ → List Client → Bool
holds id [] = false
holds id (c ∷ l) = c.id == id || holds id l

-- `closeUnusedClients`: the clients of `retired` that `keep` does not hold.
unfoldable pub close_unused : List Client → List Client → List ℕ → List ℕ
unfolding holds
close_unused [] keep closed = closed
close_unused (c ∷ l) keep closed =
    let rest = close_unused l keep closed in if holds c.id keep then rest else c.id ∷ rest

-- `replaceState`.
unfoldable pub replace_state : List Client → Proxy → Proxy
unfolding close_unused
replace_state next p = record p {
  state = some next;
  previous = p.state;
  closed = close_unused (clients_of p.previous) (clients_of p.state ++ next) p.closed;
}

-- The loop of `ReloadConfig`: the clients, the created ones, and the next number; on a fault the
-- created clients are closed.
pub record Build : Type 0 where
  pub clients : List Client
  pub created : List Client
  pub next_id : ℕ

abbrev pub add_client : Client → Bool → Build → Build
add_client c is_new b = record b {
  clients = b.clients ++ c ∷ [];
  created = if is_new then b.created ++ c ∷ [] else b.created;
}

-- The fault, with what was built until then.
pub record Fault : Type 0 where
  pub error : GatewayError
  pub built : Build

unfoldable pub build_clients :
    (Endpoint → Result GatewayError (Unit {0})) → Proxy → List Endpoint → Build → Result Fault Build
unfolding matching_client
build_clients check p [] b = ok b
build_clients check p (e ∷ l) b =
    let fresh : Client = record { id = b.next_id; endpoint = e } in
    let created : Build = add_client fresh true (record b { next_id = suc b.next_id }) in
    let new = build_clients check p l created in
    elim (matching_client e p) [
      | some c ↦ build_clients check p l (add_client c false b)
      | none ↦ elim (check e) [ err f ↦ err (record { error = f; built = b }) | ok u ↦ new ]
    ]

abbrev pub no_clients : Proxy → Build
no_clients p = record { clients = []; created = []; next_id = p.next_id }

unfoldable pub finish_build : Proxy → Result Fault Build → Proxy × Option GatewayError
unfolding close_unused replace_state
finish_build p (err f) = (
  record p { next_id = f.built.next_id; closed = close_unused f.built.created [] p.closed },
  some f.error,
)
finish_build p (ok b) = (replace_state b.clients (record p { next_id = b.next_id }), none)

module _ (parse_ip : Bytes → Option Ip) (parse_url : Bytes → Option UrlParts) where
  unfoldable pub reload_encrypted : List Bytes → Proxy → Proxy × Option GatewayError
  unfolding endpoints_for_addresses validate_endpoint build_clients finish_build
  reload_encrypted addresses p = elim (endpoints_for_addresses parse_ip addresses) [
    | err e ↦ (p, some e)
    | ok endpoints ↦
        finish_build p
          (build_clients (validate_endpoint parse_ip parse_url) p endpoints (no_clients p))
  ]

  -- `ReloadConfig`.
  unfoldable pub reload_config : RuntimeConfig → Proxy → Proxy × Option GatewayError
  unfolding validate_config replace_state reload_encrypted
  reload_config config p = elim (validate_config parse_ip config) [
    | err e ↦ (p, some e)
    | ok a ↦ if a.encrypted then reload_encrypted a.addresses p else (replace_state [] p, none)
  ]

-- `RestorePrevious`.
unfoldable pub restore_previous : Proxy → Proxy
unfolding close_unused
restore_previous p = record p {
  state = p.previous;
  closed = close_unused (clients_of p.state) (clients_of p.previous) p.closed;
}
