-- ===== src/Doh.antt =====
-- internal/dohproxy/catalog.go and internal/dohproxy/runtime.go: the encrypted resolvers that Faro
-- knows, and the configuration of the gateway. `net.ParseIP`, `url.Parse` and JSON are parameters.
pub mod Gateway
pub mod Hooks
pub mod Generations
pub mod Messages
pub mod Exchange
pub mod Answers
mod Examples
use faro.Prelude.{
  nat_eq, ℕ, Bool, true, false, not, ◌&&◌, ◌||◌, List, [], ◌∷◌, map, Option, none, some, leb,
  if◌then◌else◌, ◌==◌, is_some, length, Result, ok, err, ◌>>=◌, ◌>>◌, guard,
}
use faro.Prelude.Maps.{lookup, insert}
use faro.Strings.{Bytes, bytes_eq, codes, trim_space, join, contains_string}
use faro.Domains.{Ip}
use faro.Policy.Settings.{SettingsMap, setting, split_csv, all_parse, transport_of}

pub record Endpoint : Type 0 where
  pub name : Bytes
  pub url : Bytes
  pub bootstrap_ips : List Bytes

pub data GatewayError : Type 0 where
  invalid_transport address_count invalid_resolver custom_resolver no_provider : GatewayError
  invalid_endpoint no_bootstrap invalid_bootstrap : GatewayError
  no_providers provider_failed server_failed cancelled : GatewayError
  bad_path no_generation : GatewayError

-- An endpoint of the catalog with two addresses.
abbrev pub provider : Bytes → Bytes → Bytes → Bytes → Endpoint
provider name url first second = record {
  name = name;
  url = url;
  bootstrap_ips = first ∷ second ∷ [];
}

unfoldable pub catalog : List Endpoint
catalog =
    provider (codes "Cloudflare Standard") (codes "https://cloudflare-dns.com/dns-query")
      (codes "1.1.1.1") (codes "1.0.0.1")
    ∷ provider (codes "Cloudflare Malware Blocking")
        (codes "https://security.cloudflare-dns.com/dns-query") (codes "1.1.1.2") (codes "1.0.0.2")
    ∷ provider (codes "Cloudflare Family") (codes "https://family.cloudflare-dns.com/dns-query")
        (codes "1.1.1.3") (codes "1.0.0.3")
    ∷ provider (codes "Google Public DNS") (codes "https://dns.google/dns-query") (codes "8.8.8.8")
        (codes "8.8.4.4")
    ∷ provider (codes "Quad9 Secure") (codes "https://dns.quad9.net/dns-query") (codes "9.9.9.9")
        (codes "149.112.112.112")
    ∷ provider (codes "Quad9 Unfiltered") (codes "https://dns10.quad9.net/dns-query")
        (codes "9.9.9.10") (codes "149.112.112.10")
    ∷ provider (codes "Quad9 Secure with ECS") (codes "https://dns11.quad9.net/dns-query")
        (codes "9.9.9.11") (codes "149.112.112.11")
    ∷ provider (codes "AdGuard Default") (codes "https://dns.adguard-dns.com/dns-query")
        (codes "94.140.14.14") (codes "94.140.15.15")
    ∷ provider (codes "AdGuard Unfiltered") (codes "https://unfiltered.adguard-dns.com/dns-query")
        (codes "94.140.14.140") (codes "94.140.14.141")
    ∷ provider (codes "AdGuard Family") (codes "https://family.adguard-dns.com/dns-query")
        (codes "94.140.14.15") (codes "94.140.15.16")
    ∷ provider (codes "OpenDNS Standard") (codes "https://doh.opendns.com/dns-query")
        (codes "208.67.222.222") (codes "208.67.220.220")
    ∷ provider (codes "OpenDNS FamilyShield")
        (codes "https://doh.familyshield.opendns.com/dns-query") (codes "208.67.222.123")
        (codes "208.67.220.123")
    ∷ []

abbrev pub Index : Type 0
Index = List (Bytes × Endpoint)

-- What `url.Parse` gives of a text.
pub record UrlParts : Type 0 where
  pub scheme : Bytes
  pub hostname : Bytes
  pub port : Bytes
  pub has_user : Bool

module _ (parse_ip : Bytes → Option Ip) where
  unfoldable pub index_addresses : Endpoint → List Bytes → Index → Index
  index_addresses e [] index = index
  index_addresses e (address ∷ l) index = elim (parse_ip address) [
    | none ↦ index_addresses e l index
    | some ip ↦ index_addresses e l (insert ip.text e index)
  ]

  unfoldable pub index_endpoints : List Endpoint → Index → Index
  unfolding index_addresses
  index_endpoints [] index = index
  index_endpoints (e ∷ l) index = index_endpoints l (index_addresses e e.bootstrap_ips index)

  -- `endpointByAddress`
  unfoldable pub build_address_index : List Endpoint → Index
  unfolding index_endpoints
  build_address_index endpoints = index_endpoints endpoints []

  unfoldable pub endpoint_for_address : Bytes → Option Endpoint
  unfolding build_address_index catalog trim_space
  endpoint_for_address address = elim (parse_ip (trim_space address)) [
    | none ↦ none
    | some ip ↦ lookup ip.text (build_address_index catalog)
  ]

  -- The loop of `EndpointsForAddresses`; `seen` are the URLs.
  unfoldable pub collect_endpoints : List Bytes → List Bytes → Result GatewayError (List Endpoint)
  unfolding endpoint_for_address contains_string
  collect_endpoints seen [] = ok []
  collect_endpoints seen (address ∷ l) = elim (endpoint_for_address address) [
    | none ↦ err custom_resolver
    | some e ↦
        let again = collect_endpoints seen l in
        let more = collect_endpoints (e.url ∷ seen) l in
        if contains_string e.url seen then again else more >>= λ rest. ok (e ∷ rest)
  ]

  unfoldable pub endpoints_for_addresses : List Bytes → Result GatewayError (List Endpoint)
  unfolding collect_endpoints
  endpoints_for_addresses addresses = do
    endpoints ← collect_endpoints [] addresses
    guard (not (length endpoints == 0)) no_provider
    ok endpoints

  -- `validateEndpoint`.
  unfoldable pub validate_endpoint :
      (Bytes → Option UrlParts) → Endpoint → Result GatewayError (Unit {0})
  unfolding all_parse
  validate_endpoint parse_url e = elim (parse_url e.url) [
    | none ↦ err invalid_endpoint
    | some u ↦ do
      guard (u.scheme == codes "https" && not (u.hostname == []) && u.port == [] && not u.has_user)
          invalid_endpoint
      guard (not (length e.bootstrap_ips == 0)) no_bootstrap
      guard (all_parse (λ a. is_some (parse_ip a)) e.bootstrap_ips) invalid_bootstrap
      ok tt
  ]

-- `RuntimeConfig`
pub record RuntimeConfig : Type 0 where
  pub transport : Bytes
  pub upstream_dns : Bytes
  pub generation : Bytes

-- The gateway's view of an accepted configuration.
pub record Accepted : Type 0 where
  pub encrypted : Bool
  pub addresses : List Bytes

-- `RuntimeConfig.validate`; `runtimeAddresses` splits as `splitCSV` does.
unfoldable pub validate_config : (Bytes → Option Ip) → RuntimeConfig → Result GatewayError Accepted
unfolding trim_space split_csv all_parse endpoints_for_addresses
validate_config parse_ip config = do
  let transport = transport_of (trim_space config.transport)
  guard (transport == codes "standard" || transport == codes "encrypted") invalid_transport
  let addresses = split_csv config.upstream_dns
  guard (not (length addresses == 0) && leb (length addresses) 15) address_count
  guard (all_parse (λ a. is_some (parse_ip a)) addresses) invalid_resolver
  endpoints ←
      if transport == codes "encrypted" then endpoints_for_addresses parse_ip addresses else ok []
  ok (record { encrypted = transport == codes "encrypted"; addresses = addresses })

-- `RuntimeConfigFromStore` with `configuredTransport`.
unfoldable pub runtime_config_from_store : SettingsMap → RuntimeConfig
unfolding setting trim_space split_csv join
runtime_config_from_store settings = record {
  transport = transport_of (trim_space (setting (codes "upstream_transport") settings));
  upstream_dns = join (codes ",") (split_csv (setting (codes "upstream_dns") settings));
  generation = [];
}

-- `ReadRuntimeConfig` after the decoder, and the checks of `WriteRuntimeConfig` before the file.
unfoldable pub check_read : (Bytes → Option Ip) → RuntimeConfig → Result GatewayError RuntimeConfig
unfolding validate_config trim_space
check_read parse_ip config = do
  guard (not (length (trim_space config.generation) == 0)) no_generation
  accepted ← validate_config parse_ip config
  ok config

-- `stamp` is the time in nanoseconds as text.
unfoldable pub check_write :
    (Bytes → Option Ip) → Bytes → Bytes → RuntimeConfig → Result GatewayError RuntimeConfig
unfolding validate_config trim_space
check_write parse_ip stamp path config = do
  guard (not (length (trim_space path) == 0)) bad_path
  let stamped =
      if length (trim_space config.generation) == 0
      then record config { generation = stamp }
      else config
  accepted ← validate_config parse_ip stamped
  ok stamped
