-- ===== src/Policy/Agreement.antt =====
-- internal/coredns/coredns.go: what `ExplainDomainForClient` says of a domain, and what the hosts file
-- of the protection does.
use faro.Prelude.{
  nat_eq, ℕ, ◌≡◌, false, not, ◌&&◌, ◌||◌, List, [], ◌∷◌, ◌++◌, some, inl, inr, ◌==◌, is_some, arith,
  All, Bool-cases, Result-cases, ok,
}
use faro.Strings.{Bytes, bytes_eq}
use faro.Domains.{normalize_domain}
use faro.Domains.Safety.{normalize_domain_safe}
use faro.Policy.{Profile, Tables, Clock, is_active}
use faro.Policy.Hosts.{
  allowlist, blocked_domains, allowed_set, block_domains, block_lines, hosts_header,
  protection_domains, block_hosts_for_protection,
}
use faro.Policy.HostsFile.{IsName, file_blocks, file_blocks_lem, file_blocks_nil}
use faro.Policy.Blocks.{IsStored, nonempty, protection_domains_lem}
use faro.Policy.Explain.{
  Decision, entry_id, trial_id, matching_lists, device_is_paused, selected, decide, list_reason,
  explain_profile, explain_domain_for_client,
}
use faro.Policy.Render.{ProtectionRender, protection_render, render_protection}

block_domains-IsName :
    (allowed l listed : List Bytes) → block_domains allowed l ≡ ok listed → All IsName listed
unfolding block_domains
block_domains-IsName allowed [] listed h = ground arith
block_domains-IsName allowed (raw ∷ l) listed h = elim (Result-cases (normalize_domain raw)) [
  | inr (f, e) ↦ absurd (ground arith)
  | inl (domain, e) ↦ elim (Result-cases (block_domains allowed l)) [
    | inr (f, r) ↦ absurd (ground arith)
    | inl (rest, r) ↦
        let safe = normalize_domain_safe raw domain e in
        ground (arith, safe.0, safe.2, block_domains-IsName allowed l rest r)
  ]
]

protection_domains-IsName :
    (t : Tables) (c : Clock) (protection : ℕ) (listed : List Bytes)
    → protection_domains t c protection ≡ ok listed
    → All IsName listed
unfolding protection_domains
protection_domains-IsName t c protection listed h =
    elim (Result-cases (allowed_set (allowlist t c protection))) [
      | inr (f, e) ↦ absurd (ground arith)
      | inl (allowed, e) ↦
          block_domains-IsName allowed (blocked_domains t protection) listed (ground arith)
    ]

list_reason-blocked :
    (p : Profile) (d : Decision)
    → d.is_blocked ≡ false
    → (list_reason p d).is_blocked ≡ nonempty d.blocklists
unfolding list_reason
list_reason-blocked p d h = ground arith

-- What `decide` answers, as a condition.
decide-blocked :
    (c : Clock) (p : Profile) (d : Decision)
    → d.is_blocked ≡ false
    → (decide c p d).is_blocked ≡ (
        is_active c p
        && not (is_some d.allowlist)
        && (is_some d.manual_block || nonempty d.blocklists))
unfolding decide
decide-blocked c p d h = ground (arith, list_reason-blocked p d h)

explain_profile-blocked :
    (t : Tables) (c : Clock) (domain : Bytes) (p : Profile)
    → (explain_profile t c domain p).is_blocked ≡ (
        is_active c p
        && (entry_id p.id domain t.allows == 0 && not (is_some (trial_id c p.id domain t.trials)))
        && (not (entry_id p.id domain t.blocks == 0)
            || nonempty (matching_lists t p.id domain t.list_entries)))
unfolding explain_profile
explain_profile-blocked t c domain p = ground arith

-- For tables that hold normal domains and ids from 1, rendering a protection succeeds, and a domain
-- is explained as blocked to a client of that protection whose device is not paused exactly when the
-- block hosts that are rendered for the protection at the same time, as CoreDNS reads them, map the
-- normal form of the domain to 0.0.0.0.
pub explain-render_protection :
    (t : Tables) (c : Clock) (domain normal client : Bytes) (p : Profile)
    → IsStored t
    → normalize_domain domain ≡ ok normal
    → device_is_paused t c client ≡ false
    → selected t client ≡ some p
    → (r : ProtectionRender) × (render_protection t c p ≡ ok r)
      × ((explain_domain_for_client t c domain client).is_blocked
          ≡ file_blocks r.block_hosts normal)
unfolding explain_domain_for_client render_protection block_hosts_for_protection protection_render
explain-render_protection t c domain normal client p stored e paused chosen =
    let explained = explain_profile-blocked t c normal p in
    let (listed, l, m) = protection_domains_lem t c p.id stored in
    elim (Bool-cases (is_active c p)) [
      | inl active ↦
          let read = file_blocks_lem normal listed (protection_domains-IsName t c p.id listed l) in
          (
            protection_render t c p (hosts_header ++ block_lines listed),
            ground arith,
            ground (arith, explained, m normal, read),
          )
      | inr idle ↦ (
        protection_render t c p [],
        ground arith,
        ground (arith, explained, file_blocks_nil normal),
      )
    ]
