-- ===== src/QueryLog/Entries.antt =====
-- internal/querylog/querylog.go: what a line of the log says, and how a query is classified. The
-- expression for old lines, `time.ParseDuration`, `net.SplitHostPort` and the loopback test of
-- `net.ParseIP` are parameters; a latency is a number of microseconds.
use mathlib.Core.List.{reverse}
use faro.Prelude.{
  nat_eq, ℕ, Bool, true, false, not, ◌&&◌, ◌||◌, List, [], ◌∷◌, Option, none, some, if◌then◌else◌,
  ◌==◌, is_some,
}
use faro.Strings.{
  Bytes, bytes_eq, codes, trim_space, to_lower, trim_prefix, trim_suffix, split, has_prefix,
}
use faro.Domains.{to_upper}
use faro.Policy.{LocalRow, Tables, Clock}
use faro.Policy.Explain.{Decision, Reason, explain_domain_for_client}

-- `logEntry`
pub record LogEntry : Type 0 where
  pub client_ip : Bytes
  pub query_type : Bytes
  pub domain : Bytes
  pub rcode : Bytes
  pub latency : ℕ
  pub upstream : Bytes
  pub observed : Bool

pub record LineParsers : Type 0 where
  pub parse_duration : Bytes → Option ℕ
  pub split_host_port : Bytes → Option (Bytes × Bytes)
  pub is_loopback : Bytes → Bool
  pub parse_old_line : Bytes → Option LogEntry

-- `line[strings.Index(line, marker):]`.
unfoldable pub from_marker : Bytes → Bytes → Option Bytes
unfolding has_prefix
from_marker marker [] = none
from_marker marker (c ∷ s) =
    let rest = from_marker marker s in if has_prefix marker (c ∷ s) then some (c ∷ s) else rest

unfoldable pub drop_brackets : Bytes → Bytes
drop_brackets [] = []
drop_brackets (c ∷ s) = if c == b'[' || c == b']' then drop_brackets s else c ∷ s

-- `strings.Trim(value, "[]")`.
unfoldable pub trim_brackets : Bytes → Bytes
unfolding drop_brackets
trim_brackets s = reverse (drop_brackets (reverse (drop_brackets s)))

abbrev without_schemes : Bytes → Bytes
without_schemes s =
    trim_prefix (codes "tls://") (trim_prefix (codes "tcp://") (trim_prefix (codes "udp://") s))

abbrev pub upstream_name : LineParsers → Bytes → Option (Bytes × Bytes) → Bytes
upstream_name p value none = trim_brackets value
upstream_name p value (some (host, port)) =
    if port == codes "5053" && p.is_loopback (trim_brackets host)
    then codes "doh"
    else trim_brackets host

unfoldable pub normalize_upstream : LineParsers → Bytes → Bytes
unfolding trim_space trim_prefix trim_brackets
normalize_upstream p value =
    let s = trim_space value in
    if s == [] || s == codes "-"
    then []
    else upstream_name p (without_schemes s) (p.split_host_port (without_schemes s))

abbrev with_latency : LogEntry → Option ℕ → Option LogEntry
with_latency e none = none
with_latency e (some micros) = some (record e { latency = micros })

-- The fields of a marked line.
unfoldable pub parse_fields : LineParsers → List Bytes → Option LogEntry
unfolding normalize_upstream trim_brackets to_upper trim_space trim_suffix to_lower
parse_fields p (mark ∷ client ∷ type ∷ name ∷ rcode ∷ latency ∷ upstream ∷ rest) =
    with_latency
      (record {
        client_ip = trim_brackets client;
        query_type = to_upper (trim_space type);
        domain = trim_suffix (codes ".") (to_lower (trim_space name));
        rcode = to_upper (trim_space rcode);
        latency = 0;
        upstream = normalize_upstream p upstream;
        observed = true;
      })
      (p.parse_duration latency)
parse_fields p _ = none

unfoldable pub parse_line : LineParsers → Bytes → Option LogEntry
unfolding from_marker parse_fields split trim_space
parse_line p line = elim (from_marker (codes "FARO|") line) [
  | none ↦ p.parse_old_line line
  | some marked ↦ parse_fields p (split b'|' (trim_space marked))
]

pub data Source : Type 0 where
  manual blocklist local upstream cache : Source

-- A local record that answers addresses.
abbrev pub answers_address : Option LocalRow → Bool
answers_address none = false
answers_address (some r) = r.type == codes "A" || r.type == codes "AAAA"

-- `sourceForEntry`.
unfoldable pub source_for_entry : LogEntry → Decision → Source
source_for_entry e d =
    if d.is_blocked
    then if is_some d.manual_block then manual else blocklist
    else if answers_address d.local_record
    then local
    else if not e.observed || not (e.upstream == [])
    then upstream
    else cache

pub data Confidence : Type 0 where
  seen inferred configuration_snapshot : Confidence

-- `decisionConfidence`.
unfoldable pub decision_confidence : Source → Bytes → Confidence
decision_confidence upstream name = if name == [] then configuration_snapshot else seen
decision_confidence cache name = inferred
decision_confidence _ name = configuration_snapshot

-- How a query was resolved, as the text says it.
pub data Resolution : Type 0 where
  from_cache encrypted_upstream configured_upstream : Resolution
  named_upstream : Bytes → Resolution

pub data EntryReason : Type 0 where
  local_answer : LocalRow → EntryReason
  decided : Reason → EntryReason
  resolved : Resolution → EntryReason
  excepted_then : Reason → Resolution → EntryReason

abbrev pub upstream_resolution : Bytes → Resolution
upstream_resolution name =
    if name == codes "doh"
    then encrypted_upstream
    else if name == []
    then configured_upstream
    else named_upstream name

unfoldable pub resolution_of : Source → Bytes → Resolution
resolution_of cache name = from_cache
resolution_of _ name = upstream_resolution name

-- `decisionReason`.
unfoldable pub decision_reason : Decision → Source → Bytes → EntryReason
unfolding resolution_of
decision_reason d source name = if d.is_blocked then decided d.reason else elim d.local_record [
  | some r ↦ local_answer r
  | none ↦
      if is_some d.allowlist
      then excepted_then d.reason (resolution_of source name)
      else resolved (resolution_of source name)
]

-- `pendingQuery`, with the parts of the decision that its metadata adds.
pub record PendingQuery : Type 0 where
  pub entry : LogEntry
  pub device_id : ℕ
  pub is_blocked : Bool
  pub source : Source
  pub confidence : Confidence
  pub reason : EntryReason

-- `prepareEntry`.
unfoldable pub prepare_entry : Tables → Clock → LogEntry → ℕ → PendingQuery
unfolding explain_domain_for_client source_for_entry decision_confidence decision_reason
prepare_entry t c e device =
    let d = explain_domain_for_client t c e.domain e.client_ip in
    let source = source_for_entry e d in
    record {
      entry = e;
      device_id = device;
      is_blocked = d.is_blocked;
      source = source;
      confidence = decision_confidence source e.upstream;
      reason = decision_reason d source e.upstream;
    }
