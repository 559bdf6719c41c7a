-- ===== src/Policy/Limits.antt =====
-- internal/coredns/coredns.go: what holds of the settings that render.
use faro.Prelude.{
  nat_eq, ℕ, ◌≤◌, ◌≡◌, refl, subst, Bool, true, false, not, List, [], ◌∷◌, Option, none, some, ◌⊎◌,
  inl, inr, ◌==◌, arith, length, is_some, ok, leb,
}
use faro.Strings.{Bytes, bytes_eq, codes, trim_space}
use faro.Encoding.{Int64, parse_int}
use faro.Domains.{Ip}
use faro.Policy.Settings.{
  RenderState, SettingsMap, setting, split_csv, all_parse, if_none, default_upstreams,
  default_cidrs, clamped, transport_of, checked_state, render_state_for_settings,
}

clamped_in_range : (n : Option Int64) → (30 ≤ clamped n) × (clamped n ≤ 3600)
clamped_in_range none = ground arith
clamped_in_range (some (true, n)) = ground arith
clamped_in_range (some (false, n)) = ground arith

default_cidrs_nonempty : (l : List Bytes) → 1 ≤ length (if_none l default_cidrs)
default_cidrs_nonempty [] = ground arith
default_cidrs_nonempty (s ∷ l) = ground arith

if_none_nonempty : (l : List Bytes) (s : Bytes) (k : List Bytes) → 1 ≤ length (if_none l (s ∷ k))
if_none_nonempty [] s k = ground arith
if_none_nonempty (t ∷ l) s k = ground arith

-- The upstreams and networks that a state holds.
abbrev pub IsInRange : (Bytes → Option Ip) → (Bytes → Bool) → RenderState → Type 0
IsInRange parse_ip parse_cidr s =
    (1 ≤ length s.upstreams)
    × (length s.upstreams ≤ 15)
    × ((all_parse (λ a. is_some (parse_ip a)) s.upstreams ≡ true)
        ⊎ (s.upstreams ≡ codes "127.0.0.1:5053" ∷ []))
    × (30 ≤ s.cache_ttl)
    × (s.cache_ttl ≤ 3600)
    × (30 ≤ s.denial_ttl)
    × (s.denial_ttl ≤ 60)
    × (1 ≤ length s.allowed_cidrs)
    × (all_parse parse_cidr s.allowed_cidrs ≡ true)

checked_state-IsInRange :
    (parse_ip : Bytes → Option Ip) (parse_cidr : Bytes → Bool) (upstreams cidrs : List Bytes)
    (encrypted cached : Bool) (ttl : ℕ)
    → (1 ≤ length upstreams)
      × (length upstreams ≤ 15)
      × (all_parse (λ a. is_some (parse_ip a)) upstreams ≡ true)
    → (30 ≤ ttl) × (ttl ≤ 3600)
    → (1 ≤ length cidrs) × (all_parse parse_cidr cidrs ≡ true)
    → IsInRange parse_ip parse_cidr (checked_state upstreams cidrs encrypted cached ttl)
unfolding checked_state
checked_state-IsInRange parse_ip parse_cidr upstreams cidrs true cached ttl u v w =
    (omega arith, omega arith, inr refl, v.0, v.1, ground arith, ground arith, w.0, w.1)
checked_state-IsInRange parse_ip parse_cidr upstreams cidrs false cached ttl u v w =
    (u.0, u.1, inl u.2, v.0, v.1, ground arith, ground arith, w.0, w.1)

-- Settings that render give between 1 and 15 upstreams, each an address or the encrypted gateway, a
-- cache time between 30 seconds and an hour, at most a minute of it for denials, and at least one
-- network that may ask, each a CIDR.
pub render_state_for_settings-IsInRange :
    (parse_ip : Bytes → Option Ip) (parse_cidr : Bytes → Bool) (settings : SettingsMap)
    (s : RenderState)
    → render_state_for_settings parse_ip parse_cidr settings ≡ ok s
    → IsInRange parse_ip parse_cidr s
unfolding render_state_for_settings
render_state_for_settings-IsInRange parse_ip parse_cidr settings s h =
    let upstreams =
      if_none (split_csv (setting (codes "upstream_dns") settings)) default_upstreams in
    let transport = transport_of (trim_space (setting (codes "upstream_transport") settings)) in
    let ttl = parse_int (setting (codes "dns_cache_ttl") settings) in
    let cidrs =
      if_none (split_csv (setting (codes "allowed_client_cidrs") settings)) default_cidrs in
    let cached = not (setting (codes "dns_cache_enabled") settings == codes "false") in
    let few : leb (length upstreams) 15 ≡ true = ground arith in
    let parsed : all_parse (λ a. is_some (parse_ip a)) upstreams ≡ true = ground arith in
    let networks : all_parse parse_cidr cidrs ≡ true = ground arith in
    let same : checked_state upstreams cidrs (transport == codes "encrypted") cached (clamped ttl)
        ≡ s =
      ground arith in
    subst (IsInRange parse_ip parse_cidr) same (
      checked_state-IsInRange parse_ip parse_cidr upstreams cidrs (transport == codes "encrypted")
        cached (clamped ttl)
        (
          if_none_nonempty (split_csv (setting (codes "upstream_dns") settings)) (codes "1.1.1.1")
              (codes "9.9.9.9" ∷ []),
          ground arith,
          parsed,
        )
        (clamped_in_range ttl)
        (
          default_cidrs_nonempty (split_csv (setting (codes "allowed_client_cidrs") settings)),
          networks,
        ))
