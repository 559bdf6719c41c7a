-- ===== src/Blocklists/Due.antt =====
-- internal/blocklists/blocklists.go: one automatic pass, and the resolvers of a download.
use faro.Prelude.{
  nat_eq, ℕ, Bool, true, false, ◌&&◌, ◌||◌, List, [], ◌∷◌, ◌++◌, map, Option, none, some, ltb,
  if◌then◌else◌, ◌==◌, Result, ok, err,
}
use faro.Strings.{Bytes, bytes_eq, codes, trim_space, split, contains_byte}
use faro.Domains.{Ip}
use faro.Blocklists.{RefreshError}
use faro.Blocklists.Refresh.{ListRow, Lists, World, refresh_and_apply}

-- `last_refreshed_at IS NULL OR ... < cutoff`
abbrev pub is_before : Option ℕ → ℕ → Bool
is_before none cutoff = true
is_before (some t) cutoff = ltb t cutoff

unfoldable pub is_due : ℕ → ListRow → Bool
is_due cutoff row = row.enabled && is_before row.last_refreshed_at cutoff

unfoldable pub due_ids : ℕ → Lists → List ℕ
unfolding is_due
due_ids cutoff [] = []
due_ids cutoff ((id, row) ∷ l) =
    let rest = due_ids cutoff l in if is_due cutoff row then id ∷ rest else rest

abbrev pub is_err : Result RefreshError ℕ → Bool
is_err (ok n) = false
is_err (err e) = true

-- The loop over the due lists; each refresh meets a world of its own.
unfoldable pub refresh_each :
    Option (Lists → Bool) → (ℕ → World) → List ℕ → Lists → Bool → Lists × Bool
unfolding refresh_and_apply
refresh_each apply worlds [] lists failed = (lists, failed)
refresh_each apply worlds (id ∷ l) lists failed =
    let done = refresh_and_apply apply (worlds id) id lists in
    refresh_each apply worlds l done.0 (failed || is_err done.1)

-- `refreshDue` at a cutoff, with the scan of the table succeeding.
unfoldable pub refresh_due : Option (Lists → Bool) → (ℕ → World) → ℕ → Lists → Lists × Bool
unfolding due_ids refresh_each
refresh_due apply worlds cutoff lists = refresh_each apply worlds (due_ids cutoff lists) lists false

-- `net.JoinHostPort(address, "53")`
abbrev pub join_port : Bytes → Bytes
join_port address =
    if contains_byte b':' address
    then codes "[" ++ (address ++ codes "]:53")
    else address ++ codes ":53"

-- `faroAddress != nil && parsedAddress.Equal(faroAddress)`
abbrev pub is_faro : Option Ip → Ip → Bool
is_faro none ip = false
is_faro (some faro) ip = ip.text == faro.text

unfoldable pub usable_upstreams : (Bytes → Option Ip) → Option Ip → List Bytes → List Bytes
usable_upstreams parse_ip faro [] = []
usable_upstreams parse_ip faro (address ∷ l) =
    let rest = usable_upstreams parse_ip faro l in
    elim (parse_ip address) [
      | none ↦ rest
      | some ip ↦ if is_faro faro ip then rest else join_port address ∷ rest
    ]

abbrev pub or_public : List Bytes → List Bytes
or_public [] = codes "1.1.1.1:53" ∷ codes "9.9.9.9:53" ∷ []
or_public (s ∷ l) = s ∷ l

-- `blocklistDNSUpstreams`; `own` is what the caller configured, the texts are the two settings.
unfoldable pub blocklist_dns_upstreams :
    (Bytes → Option Ip) → List Bytes → Bytes → Bytes → List Bytes
unfolding usable_upstreams split trim_space
blocklist_dns_upstreams parse_ip (s ∷ own) configured faro_ip = s ∷ own
blocklist_dns_upstreams parse_ip [] configured faro_ip = or_public (
    usable_upstreams parse_ip (parse_ip (trim_space faro_ip))
      (map trim_space (split b',' configured)))
