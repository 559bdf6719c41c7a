-- ===== src/Policy/Hosts.antt =====
-- internal/coredns/coredns.go: `domains`, `blockHostsForProtection` and `localHosts`. A query that
-- fails ends the call with its error before anything is written, and is not modelled.
use faro.Prelude.{
  nat_eq, ℕ, ◌&&◌, ◌||◌, List, [], ◌∷◌, ◌++◌, Option, if◌then◌else◌, ◌==◌, Result, ok, err, ◌>>=◌,
}
use faro.Strings.{Bytes, bytes_eq, codes, bytes_leb, sort_strings, contains_string}
use faro.Domains.{Ip, NormalRecord, normalize_domain, normalize_record}
use faro.Policy.{
  Entry, Trial, ListEntry, LocalRow, Tables, Clock, RenderError, invalid_allow_domain,
  invalid_block_domain, invalid_record, is_unexpired, is_installed,
}

-- The rows of a `UNION` are distinct.
unfoldable pub distinct : List Bytes → List Bytes
unfolding contains_string
distinct [] = []
distinct (s ∷ l) = let rest = distinct l in if contains_string s rest then rest else s ∷ rest

-- `domains`: the rows of a query, sorted.
unfoldable pub union : List Bytes → List Bytes → List Bytes
unfolding distinct sort_strings
union rows more = sort_strings (distinct (rows ++ more))

abbrev pub entry_domains : ℕ → List Entry → List Bytes
entry_domains protection [] = []
entry_domains protection (e ∷ l) =
    let rest = entry_domains protection l in
    if e.protection_id == protection then e.domain ∷ rest else rest

abbrev pub trial_domains : Clock → ℕ → List Trial → List Bytes
trial_domains c protection [] = []
trial_domains c protection (e ∷ l) =
    let rest = trial_domains c protection l in
    if e.protection_id == protection && is_unexpired c e then e.domain ∷ rest else rest

abbrev pub installed_domains : Tables → ℕ → List ListEntry → List Bytes
installed_domains t protection [] = []
installed_domains t protection (e ∷ l) =
    let rest = installed_domains t protection l in
    if is_installed t protection e then e.domain ∷ rest else rest

unfoldable pub allowlist : Tables → Clock → ℕ → List Bytes
unfolding union
allowlist t c protection =
    union (entry_domains protection t.allows) (trial_domains c protection t.trials)

unfoldable pub blocked_domains : Tables → ℕ → List Bytes
unfolding union
blocked_domains t protection =
    union (entry_domains protection t.blocks) (installed_domains t protection t.list_entries)

-- The set `allowed`.
unfoldable pub allowed_set : List Bytes → Result RenderError (List Bytes)
unfolding normalize_domain
allowed_set [] = ok []
allowed_set (raw ∷ l) = elim (normalize_domain raw) [
  | err f ↦ err invalid_allow_domain
  | ok domain ↦ allowed_set l >>= λ rest. ok (domain ∷ rest)
]

-- The domains that get a line.
unfoldable pub block_domains : List Bytes → List Bytes → Result RenderError (List Bytes)
unfolding normalize_domain contains_string
block_domains allowed [] = ok []
block_domains allowed (raw ∷ l) = elim (normalize_domain raw) [
  | err f ↦ err invalid_block_domain
  | ok domain ↦ block_domains allowed l >>= λ rest.
      ok (if contains_string domain allowed then rest else domain ∷ rest)
]

-- `blockHostsForProtection` without its text: the domains of the file.
unfoldable pub protection_domains : Tables → Clock → ℕ → Result RenderError (List Bytes)
unfolding allowlist blocked_domains allowed_set block_domains
protection_domains t c protection = do
  allowed ← allowed_set (allowlist t c protection)
  block_domains allowed (blocked_domains t protection)

abbrev pub hosts_header : Bytes
hosts_header = codes "# Generated by Faro. Allowlist entries are excluded.\n"

abbrev pub block_lines : List Bytes → Bytes
block_lines [] = []
block_lines (domain ∷ l) = codes "0.0.0.0 " ++ (domain ++ (codes "\n" ++ block_lines l))

unfoldable pub block_hosts_for_protection : Tables → Clock → ℕ → Result RenderError Bytes
unfolding protection_domains
block_hosts_for_protection t c protection = do
  l ← protection_domains t c protection
  ok (hosts_header ++ block_lines l)

-- `ORDER BY hostname`.
unfoldable pub insert_record : LocalRow → List LocalRow → List LocalRow
unfolding bytes_leb
insert_record r [] = r ∷ []
insert_record r (s ∷ l) =
    if bytes_leb r.hostname s.hostname then r ∷ s ∷ l else s ∷ insert_record r l

unfoldable pub by_hostname : List LocalRow → List LocalRow
unfolding insert_record
by_hostname [] = []
by_hostname (r ∷ l) = insert_record r (by_hostname l)

abbrev pub local_line : NormalRecord → Bytes
local_line r =
    if r.type == codes "A" || r.type == codes "AAAA"
    then r.value ++ (codes " " ++ (r.host ++ codes "\n"))
    else []

unfoldable pub local_lines : (Bytes → Option Ip) → List LocalRow → Result RenderError Bytes
unfolding normalize_record
local_lines parse_ip [] = ok []
local_lines parse_ip (r ∷ l) = elim (normalize_record parse_ip r.hostname r.type r.value) [
  | err f ↦ err invalid_record
  | ok normal ↦ local_lines parse_ip l >>= λ rest. ok (local_line normal ++ rest)
]

unfoldable pub local_hosts : (Bytes → Option Ip) → Tables → Result RenderError Bytes
unfolding local_lines by_hostname
local_hosts parse_ip t = do
  rest ← local_lines parse_ip (by_hostname t.records)
  ok (codes "# Generated by Faro. Manual edits will be replaced.\n" ++ rest)
