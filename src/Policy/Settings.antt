-- ===== src/Policy/Settings.antt =====
-- internal/coredns/coredns.go: `splitCSV` and `renderStateForSettings`. `net.ParseIP` and
-- `net.ParseCIDR` are parameters.
use faro.Prelude.{
  nat_eq, ℕ, Bool, true, not, ◌&&◌, ◌||◌, List, [], ◌∷◌, map, Option, none, some, min, max, leb,
  if◌then◌else◌, ◌==◌, is_some, length, Result, ok, ◌>>◌, guard,
}
use faro.Prelude.Maps.{lookup}
use faro.Strings.{Bytes, bytes_eq, codes, trim_space, split, drop_empty}
use faro.Encoding.{Int64, parse_int}
use faro.Domains.{Ip}
use faro.Policy.{RenderError, too_many_upstreams, invalid_upstream, invalid_transport, invalid_cidr}

abbrev pub SettingsMap : Type 0
SettingsMap = List (Bytes × Bytes)

pub record RenderState : Type 0 where
  pub upstreams : List Bytes
  pub cache_enabled : Bool
  pub cache_ttl : ℕ
  pub denial_ttl : ℕ
  pub allowed_cidrs : List Bytes

-- A missing key reads as the empty text.
unfoldable pub setting : Bytes → SettingsMap → Bytes
setting key m = elim (lookup key m) [ none ↦ [] | some value ↦ value ]

unfoldable pub split_csv : Bytes → List Bytes
unfolding split trim_space
split_csv value = drop_empty (map trim_space (split b',' value))

abbrev pub if_none : List Bytes → List Bytes → List Bytes
if_none [] l = l
if_none (s ∷ k) l = s ∷ k

abbrev pub default_upstreams : List Bytes
default_upstreams = codes "1.1.1.1" ∷ codes "9.9.9.9" ∷ []

abbrev pub default_cidrs : List Bytes
default_cidrs =
    codes "127.0.0.0/8"
    ∷ codes "10.0.0.0/8"
    ∷ codes "100.64.0.0/10"
    ∷ codes "172.16.0.0/12"
    ∷ codes "192.168.0.0/16"
    ∷ codes "::1/128"
    ∷ codes "fc00::/7"
    ∷ codes "fe80::/10"
    ∷ []

-- The loops that stop at the first fault.
unfoldable pub all_parse : (Bytes → Bool) → List Bytes → Bool
all_parse parses [] = true
all_parse parses (s ∷ l) = parses s && all_parse parses l

abbrev pub clamped : Option Int64 → ℕ
clamped none = 300
clamped (some n) = if n.0 then 30 else max 30 (min n.1 3600)

abbrev pub transport_of : Bytes → Bytes
transport_of [] = codes "standard"
transport_of (c ∷ s) = c ∷ s

-- The state of checked settings: the encrypted transport forwards to the local gateway.
unfoldable pub checked_state : List Bytes → List Bytes → Bool → Bool → ℕ → RenderState
checked_state upstreams cidrs encrypted cached ttl = record {
  upstreams = if encrypted then codes "127.0.0.1:5053" ∷ [] else upstreams;
  cache_enabled = cached;
  cache_ttl = ttl;
  denial_ttl = min ttl 60;
  allowed_cidrs = cidrs;
}

unfoldable pub render_state_for_settings :
    (Bytes → Option Ip) → (Bytes → Bool) → SettingsMap → Result RenderError RenderState
unfolding setting split_csv all_parse parse_int trim_space checked_state
render_state_for_settings parse_ip parse_cidr settings = do
  let upstreams = if_none (split_csv (setting (codes "upstream_dns") settings)) default_upstreams
  guard (leb (length upstreams) 15) too_many_upstreams
  guard (all_parse (λ s. is_some (parse_ip s)) upstreams) invalid_upstream
  let transport = transport_of (trim_space (setting (codes "upstream_transport") settings))
  guard (transport == codes "standard" || transport == codes "encrypted") invalid_transport
  let cache_ttl = clamped (parse_int (setting (codes "dns_cache_ttl") settings))
  let cidrs = if_none (split_csv (setting (codes "allowed_client_cidrs") settings)) default_cidrs
  guard (all_parse parse_cidr cidrs) invalid_cidr
  ok (
      checked_state upstreams cidrs (transport == codes "encrypted")
        (not (setting (codes "dns_cache_enabled") settings == codes "false")) cache_ttl)
