-- ===== src/Policy/Blocks.antt =====
-- internal/coredns/coredns.go: which domains the hosts file of a protection blocks, when the domains
-- in the tables are the normal ones that the handlers store.
use faro.Prelude.{
  nat_eq, ℕ, ◌≤◌, ◌≡◌, refl, Bool, true, false, not, ◌&&◌, ◌||◌, List, [], ◌∷◌, ◌++◌, inl, inr,
  ◌==◌, is_some, arith, All, Bool-cases, ok, subst, if◌then◌else◌,
}
use faro.Strings.{Bytes, bytes_eq, bytes_iff, contains_string}
use faro.Strings.Laws.{contains_string-append, contains_string-sort}
use faro.Domains.{normalize_domain}
use faro.Policy.{
  Entry, Trial, Blocklist, ListEntry, Tables, Clock, any_row, is_unexpired, is_installed, is_chosen,
}
use faro.Policy.Hosts.{
  distinct, union, entry_domains, trial_domains, installed_domains, allowlist, blocked_domains,
  allowed_set, block_domains, protection_domains,
}
use faro.Policy.Explain.{
  RuleMatch, blocklist_kind, entry_id, trial_id, lists_of, matching_lists, insert_match,
}

abbrev pub IsNormal : Bytes → Type 0
IsNormal domain = (normalize_domain domain ≡ ok domain)

-- The rows as the schema and the handlers leave them: ids count from 1, and domains are normal.
abbrev pub IsStored : Tables → Type 0
IsStored t =
    All (λ e. (1 ≤ e.id) × IsNormal e.domain) t.allows
    × All (λ e. (1 ≤ e.id) × IsNormal e.domain) t.blocks
    × All (λ e. IsNormal e.domain) t.trials
    × All (λ e. IsNormal e.domain) t.list_entries

-- Every text of the list is normal.
abbrev AllNormal : List Bytes → Type 0
AllNormal l = (s : Bytes) → contains_string s l ≡ true → IsNormal s

abbrev pub nonempty : List RuleMatch → Bool
nonempty [] = false
nonempty (m ∷ l) = true

contains_string-distinct :
    (s : Bytes) (l : List Bytes) → contains_string s (distinct l) ≡ contains_string s l
unfolding contains_string distinct
contains_string-distinct s [] = refl
contains_string-distinct s (t ∷ l) =
    ground (arith, bytes_iff t s, contains_string-distinct s l, contains_string-distinct t l)

pub contains_string-union :
    (s : Bytes) (l k : List Bytes)
    → contains_string s (union l k) ≡ (contains_string s l || contains_string s k)
unfolding union
contains_string-union s l k = ground (
  arith,
  contains_string-sort s (distinct (l ++ k)),
  contains_string-distinct s (l ++ k),
  contains_string-append s l k,
)

contains_string-entry_domains :
    (protection : ℕ) (s : Bytes) (l : List Entry)
    → All (λ e. (1 ≤ e.id) × IsNormal e.domain) l
    → contains_string s (entry_domains protection l) ≡ not (entry_id protection s l == 0)
unfolding contains_string entry_id
contains_string-entry_domains protection s [] h = ground arith
contains_string-entry_domains protection s (e ∷ l) h =
    ground (arith, bytes_iff e.domain s, contains_string-entry_domains protection s l h.1)

contains_string-trial_domains :
    (c : Clock) (protection : ℕ) (s : Bytes) (l : List Trial)
    → contains_string s (trial_domains c protection l) ≡ is_some (trial_id c protection s l)
unfolding contains_string trial_id
contains_string-trial_domains c protection s [] = refl
contains_string-trial_domains c protection s (e ∷ l) =
    ground (arith, contains_string-trial_domains c protection s l)

insert_match-nonempty : (m : RuleMatch) (l : List RuleMatch) → nonempty (insert_match m l) ≡ true
unfolding insert_match
insert_match-nonempty m [] = refl
insert_match-nonempty m (n ∷ l) = ground arith

lists_of-nonempty :
    (t : Tables) (protection : ℕ) (e : ListEntry) (l : List Blocklist) (found : List RuleMatch)
    → nonempty (lists_of t protection e l found) ≡ (
        any_row (λ b. b.id == e.blocklist_id && b.enabled && is_chosen t protection b.id) l
        || nonempty found)
unfolding lists_of any_row
lists_of-nonempty t protection e [] found = refl
lists_of-nonempty t protection e (b ∷ l) found = ground (
  arith,
  lists_of-nonempty t protection e l found,
  insert_match-nonempty (record { kind = blocklist_kind; id = b.id; name = b.name })
      (lists_of t protection e l found),
)

contains_string-installed_domains :
    (t : Tables) (protection : ℕ) (s : Bytes) (l : List ListEntry)
    → contains_string s (installed_domains t protection l)
      ≡ nonempty (matching_lists t protection s l)
unfolding contains_string matching_lists is_installed
contains_string-installed_domains t protection s [] = refl
contains_string-installed_domains t protection s (e ∷ l) = ground (
  arith,
  contains_string-installed_domains t protection s l,
  lists_of-nonempty t protection e t.blocklists (matching_lists t protection s l),
)

entry_domains-AllNormal :
    (protection : ℕ) (l : List Entry)
    → All (λ e. (1 ≤ e.id) × IsNormal e.domain) l
    → AllNormal (entry_domains protection l)
unfolding contains_string
entry_domains-AllNormal protection [] h s m = absurd (ground arith)
entry_domains-AllNormal protection (e ∷ l) h s m =
    elim (Bool-cases (e.protection_id == protection && e.domain == s)) [
      | inl y ↦ subst IsNormal ((bytes_iff e.domain s).0 (ground arith)) h.0.1
      | inr n ↦ entry_domains-AllNormal protection l h.1 s (ground arith)
    ]

trial_domains-AllNormal :
    (c : Clock) (protection : ℕ) (l : List Trial)
    → All (λ e. IsNormal e.domain) l
    → AllNormal (trial_domains c protection l)
unfolding contains_string
trial_domains-AllNormal c protection [] h s m = absurd (ground arith)
trial_domains-AllNormal c protection (e ∷ l) h s m =
    elim (Bool-cases (e.protection_id == protection && is_unexpired c e && e.domain == s)) [
      | inl y ↦ subst IsNormal ((bytes_iff e.domain s).0 (ground arith)) h.0
      | inr n ↦ trial_domains-AllNormal c protection l h.1 s (ground arith)
    ]

installed_domains-AllNormal :
    (t : Tables) (protection : ℕ) (l : List ListEntry)
    → All (λ e. IsNormal e.domain) l
    → AllNormal (installed_domains t protection l)
unfolding contains_string
installed_domains-AllNormal t protection [] h s m = absurd (ground arith)
installed_domains-AllNormal t protection (e ∷ l) h s m =
    elim (Bool-cases (is_installed t protection e && e.domain == s)) [
      | inl y ↦ subst IsNormal ((bytes_iff e.domain s).0 (ground arith)) h.0
      | inr n ↦ installed_domains-AllNormal t protection l h.1 s (ground arith)
    ]

union-AllNormal : (l k : List Bytes) → AllNormal l → AllNormal k → AllNormal (union l k)
union-AllNormal l k a b s m = elim (Bool-cases (contains_string s l)) [
  | inl y ↦ a s y
  | inr n ↦ b s (ground (arith, contains_string-union s l k))
]

tail-AllNormal : (raw : Bytes) (l : List Bytes) → AllNormal (raw ∷ l) → AllNormal l
unfolding contains_string
tail-AllNormal raw l h s m = h s (ground arith)

head-IsNormal : (raw : Bytes) (l : List Bytes) → AllNormal (raw ∷ l) → IsNormal raw
unfolding contains_string
head-IsNormal raw l h = h raw (ground (arith, bytes_iff raw raw))

allowed_set_of_normal : (l : List Bytes) → AllNormal l → allowed_set l ≡ ok l
unfolding allowed_set
allowed_set_of_normal [] h = refl
allowed_set_of_normal (raw ∷ l) h =
    ground (arith, head-IsNormal raw l h, allowed_set_of_normal l (tail-AllNormal raw l h))

block_domains_of_normal :
    (allowed l : List Bytes)
    → AllNormal l
    → (listed : List Bytes) × (block_domains allowed l ≡ ok listed)
      × ((s : Bytes)
          → contains_string s listed ≡ (contains_string s l && not (contains_string s allowed)))
unfolding block_domains contains_string
block_domains_of_normal allowed [] h = ([], refl, λ s. refl)
block_domains_of_normal allowed (raw ∷ l) h =
    let (rest, e, m) = block_domains_of_normal allowed l (tail-AllNormal raw l h) in
    (
      (if contains_string raw allowed then rest else raw ∷ rest),
      ground (arith, head-IsNormal raw l h),
      λ s. ground (arith, m s, bytes_iff raw s),
    )

-- The tables leave no fault, and a domain is in the file when the protection or a list that it
-- installed blocks it, and neither an exception nor a live trial allows it.
pub protection_domains_lem :
    (t : Tables) (c : Clock) (protection : ℕ)
    → IsStored t
    → (listed : List Bytes) × (protection_domains t c protection ≡ ok listed)
      × ((s : Bytes)
          → contains_string s listed ≡ (
              (not (entry_id protection s t.blocks == 0)
                || nonempty (matching_lists t protection s t.list_entries))
              && (entry_id protection s t.allows == 0)
              && not (is_some (trial_id c protection s t.trials))))
unfolding protection_domains allowlist blocked_domains
protection_domains_lem t c protection h =
    let allows = entry_domains protection t.allows in
    let trials = trial_domains c protection t.trials in
    let blocks = entry_domains protection t.blocks in
    let lists = installed_domains t protection t.list_entries in
    let allowed = allowed_set_of_normal (union allows trials) (
      union-AllNormal allows trials (entry_domains-AllNormal protection t.allows h.0)
        (trial_domains-AllNormal c protection t.trials h.2)) in
    let (listed, e, m) = block_domains_of_normal (union allows trials) (union blocks lists) (
      union-AllNormal blocks lists (entry_domains-AllNormal protection t.blocks h.1)
        (installed_domains-AllNormal t protection t.list_entries h.3)) in
    (
      listed,
      ground arith,
      λ s. ground (
        arith,
        m s,
        contains_string-union s allows trials,
        contains_string-union s blocks lists,
        contains_string-entry_domains protection s t.allows h.0,
        contains_string-entry_domains protection s t.blocks h.1,
        contains_string-trial_domains c protection s t.trials,
        contains_string-installed_domains t protection s t.list_entries,
      ),
    )
