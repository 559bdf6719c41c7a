-- ===== src/Policy/Explain.antt =====
-- internal/coredns/coredns.go: `ExplainDomainForClient`, what the user interface says of a query.
use faro.Prelude.{
  nat_eq, ℕ, Bool, true, false, not, ◌&&◌, List, [], ◌∷◌, ◌++◌, Option, none, some, if◌then◌else◌,
  ◌==◌, ok, err, is_some,
}
use faro.Strings.{Bytes, bytes_eq, bytes_leb, codes}
use faro.Domains.{normalize_domain}
use faro.ProtectionTime.{paused_at}
use faro.Policy.{
  Entry, Trial, Blocklist, ListEntry, Profile, DeviceAddress, Pause, LocalRow, Tables, Clock,
  any_row, is_active, is_unexpired, is_chosen,
}

pub data RuleKind : Type 0 where
  protection_kind allowlist_kind manual_block_kind blocklist_kind : RuleKind

pub record RuleMatch : Type 0 where
  pub kind : RuleKind
  pub id : ℕ
  pub name : Bytes

-- Why a decision was taken, with the numbers and names that the text holds.
pub data Reason : Type 0 where
  no_reason device_paused local_record : Reason
  bypassed excepted custom_block : Bytes → Reason
  one_list : Bytes → Bytes → Reason
  many_lists : List RuleMatch → Bytes → Reason

pub record Decision : Type 0 where
  pub is_blocked : Bool
  pub reason : Reason
  pub protection : Option RuleMatch
  pub allowlist : Option RuleMatch
  pub manual_block : Option RuleMatch
  pub blocklists : List RuleMatch
  pub local_record : Option LocalRow

abbrev pub plain : Decision
plain = record {
  is_blocked = false;
  reason = no_reason;
  protection = none;
  allowlist = none;
  manual_block = none;
  blocklists = [];
  local_record = none;
}

-- The device of an address.
unfoldable pub device_of : List DeviceAddress → Bytes → Option ℕ
device_of [] client = none
device_of (a ∷ l) client = if a.address == client then some a.device_id else device_of l client

unfoldable pub pause_of : List Pause → ℕ → Option Bytes
pause_of [] device = none
pause_of (p ∷ l) device = if p.device_id == device then some p.paused_until else pause_of l device

unfoldable pub is_member : Tables → Bytes → Profile → Bool
unfolding any_row device_of
is_member t client p = elim (device_of t.addresses client) [
  | none ↦ false
  | some device ↦ any_row (λ m. m.protection_id == p.id && m.device_id == device) t.memberships
]

unfoldable pub is_assigned : Tables → Bytes → Profile → Bool
unfolding any_row
is_assigned t client p =
    any_row (λ a. a.protection_id == p.id && a.client_ip == client) t.assignments

unfoldable pub find_profile : (Profile → Bool) → List Profile → Option Profile
find_profile f [] = none
find_profile f (p ∷ l) = if f p then some p else find_profile f l

abbrev pub or_else : Option Profile → Option Profile → Option Profile
or_else none q = q
or_else (some p) q = some p

-- `ORDER BY CASE ... LIMIT 1`: a membership, else an old assignment, else the default.
unfoldable pub selected : Tables → Bytes → Option Profile
unfolding find_profile is_member is_assigned
selected t client = or_else (find_profile (is_member t client) t.profiles) (
    or_else (find_profile (is_assigned t client) t.profiles)
      (find_profile (λ p. p.is_default) t.profiles))

-- `COALESCE((SELECT id ...), 0)`.
unfoldable pub entry_id : ℕ → Bytes → List Entry → ℕ
entry_id protection domain [] = 0
entry_id protection domain (e ∷ l) =
    if e.protection_id == protection && e.domain == domain
    then e.id
    else entry_id protection domain l

unfoldable pub trial_id : Clock → ℕ → Bytes → List Trial → Option ℕ
unfolding is_unexpired
trial_id c protection domain [] = none
trial_id c protection domain (e ∷ l) =
    if e.protection_id == protection && e.domain == domain && is_unexpired c e
    then some e.id
    else trial_id c protection domain l

unfoldable pub first_record : Bytes → List LocalRow → Option LocalRow
first_record domain [] = none
first_record domain (r ∷ l) = if r.hostname == domain then some r else first_record domain l

-- `COALESCE(local.id, 0)`.
abbrev pub with_id : Option LocalRow → Option LocalRow
with_id none = none
with_id (some r) = if r.id == 0 then none else some r

-- `ORDER BY b.name`.
unfoldable pub insert_match : RuleMatch → List RuleMatch → List RuleMatch
unfolding bytes_leb
insert_match m [] = m ∷ []
insert_match m (n ∷ l) = if bytes_leb m.name n.name then m ∷ n ∷ l else n ∷ insert_match m l

-- The lists that hold an entry.
unfoldable pub lists_of : Tables → ℕ → ListEntry → List Blocklist → List RuleMatch → List RuleMatch
unfolding is_chosen insert_match
lists_of t protection e [] found = found
lists_of t protection e (b ∷ l) found =
    let rest = lists_of t protection e l found in
    if b.id == e.blocklist_id && b.enabled && is_chosen t protection b.id
    then insert_match (record { kind = blocklist_kind; id = b.id; name = b.name }) rest
    else rest

unfoldable pub matching_lists : Tables → ℕ → Bytes → List ListEntry → List RuleMatch
unfolding lists_of
matching_lists t protection domain [] = []
matching_lists t protection domain (e ∷ l) =
    let rest = matching_lists t protection domain l in
    if e.domain == domain then lists_of t protection e t.blocklists rest else rest

unfoldable pub device_is_paused : Tables → Clock → Bytes → Bool
unfolding device_of pause_of
device_is_paused t c client = elim (device_of t.addresses client) [
  | none ↦ false
  | some device ↦ elim (pause_of t.pauses device) [
    | none ↦ false
    | some until ↦ paused_at c.parsed until c.now
  ]
]

abbrev pub match_of : RuleKind → ℕ → Bytes → Option RuleMatch
match_of kind id name =
    if id == 0 then none else some (record { kind = kind; id = id; name = name })

-- A later allow entry takes the place of a temporary exception.
abbrev pub allow_match : Profile → Option ℕ → ℕ → Option RuleMatch
allow_match p none id = match_of allowlist_kind id (p.name ++ codes " exception")
allow_match p (some trial) id =
    if id == 0
    then some (record {
      kind = allowlist_kind;
      id = trial;
      name = p.name ++ codes " temporary troubleshooting exception";
    })
    else match_of allowlist_kind id (p.name ++ codes " exception")

unfoldable pub list_reason : Profile → Decision → Decision
list_reason p d = elim d.blocklists [
  | [] ↦ if is_some d.local_record then record d { reason = local_record } else d
  | m ∷ l ↦ elim l [
    | [] ↦ record d { is_blocked = true; reason = one_list m.name p.name }
    | n ∷ k ↦ record d { is_blocked = true; reason = many_lists d.blocklists p.name }
  ]
]

-- The `switch`.
unfoldable pub decide : Clock → Profile → Decision → Decision
unfolding is_active list_reason
decide c p d =
    if not (is_active c p)
    then record d { reason = bypassed p.name }
    else if is_some d.allowlist
    then record d { reason = excepted p.name }
    else if is_some d.manual_block
    then record d { is_blocked = true; reason = custom_block p.name }
    else list_reason p d

unfoldable pub explain_profile : Tables → Clock → Bytes → Profile → Decision
unfolding decide entry_id trial_id first_record matching_lists
explain_profile t c domain p = decide c p (record {
  is_blocked = false;
  reason = no_reason;
  protection = some (record { kind = protection_kind; id = p.id; name = p.name });
  allowlist = allow_match p (trial_id c p.id domain t.trials) (entry_id p.id domain t.allows);
  manual_block =
      match_of manual_block_kind (entry_id p.id domain t.blocks) (p.name ++ codes " custom block");
  blocklists = matching_lists t p.id domain t.list_entries;
  local_record = with_id (first_record domain t.records);
})

abbrev explain_selected : Tables → Clock → Bytes → Option Profile → Decision
explain_selected t c domain none = record plain { local_record = first_record domain t.records }
explain_selected t c domain (some p) = explain_profile t c domain p

-- `ExplainDomainForClient`; an unknown client is the empty text.
unfoldable pub explain_domain_for_client : Tables → Clock → Bytes → Bytes → Decision
unfolding explain_profile selected device_is_paused normalize_domain
explain_domain_for_client t c domain client = elim (normalize_domain domain) [
  | err f ↦ plain
  | ok normal ↦
      if not (client == []) && device_is_paused t c client
      then record plain { is_blocked = true; reason = device_paused }
      else explain_selected t c normal (selected t client)
]
