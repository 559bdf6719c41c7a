-- ===== src/Blocklists.antt =====
-- internal/blocklists/blocklists.go: the lines of a downloaded list. `bufio.Scanner` splits at line
-- breaks, drops a carriage return before one, and fails on a line that does not fit its buffer.
pub mod Refresh
pub mod Due
pub mod Lines
pub mod Restore
pub mod Pass
mod Examples
use mathlib.Core.List.{reverse}
use faro.Prelude.{
  nat_eq, ℕ, Bool, true, false, not, ◌&&◌, ◌||◌, List, [], ◌∷◌, Option, none, some, ltb,
  if◌then◌else◌, ◌==◌, length, Result, ok, err,
}
use faro.Strings.{
  Bytes, bytes_eq, codes, trim_space, split, fields, cut_prefix, has_prefix, trim_prefix, contains,
  contains_byte, contains_any, sort_strings, contains_string,
}
use faro.Domains.{DomainError, normalize_domain}

pub data RefreshError : Type 0 where
  no_list open_failed read_failed line_too_long download_too_large no_domains : RefreshError
  begin_failed delete_failed prepare_failed insert_failed update_failed commit_failed : RefreshError
  snapshot_failed : RefreshError
  -- What became of the previous entries after `apply` failed.
  restored : RefreshError
  not_restored : RefreshError → RefreshError

-- `line[:strings.Index(line, b)]`, the whole line where the byte is not there.
unfoldable pub before_byte : ℕ → Bytes → Bytes
before_byte b [] = []
before_byte b (c ∷ s) = if c == b then [] else c ∷ before_byte b s

unfoldable pub is_cosmetic : Bytes → Bool
unfolding contains
is_cosmetic line =
    contains (codes "##") line
    || contains (codes "#@#") line
    || contains (codes "#$#") line
    || contains (codes "#?#") line

unfoldable pub is_hosts_address : Bytes → Bool
is_hosts_address s = s == codes "0.0.0.0" || s == codes "127.0.0.1" || s == codes "::1"

-- The host of an Adblock rule: what stands before `^`, if that is there, not first, and no path.
unfoldable pub anchored : Bytes → Option Bytes
unfolding before_byte contains_byte
anchored rule =
    if not (contains_byte b'^' rule)
      || length (before_byte b'^' rule) == 0
      || contains_byte b'/' (before_byte b'^' rule)
    then none
    else some (before_byte b'^' rule)

-- The cases after the first: a plain domain or an Adblock rule.
unfoldable pub rule_candidate : Bytes → Option Bytes
unfolding has_prefix cut_prefix anchored contains_any
rule_candidate s =
    if has_prefix (codes "@@") s
    then none
    else if has_prefix (codes "||") s
    then anchored (trim_prefix (codes "||") s)
    else if contains_any (codes "|*$=~[](){}") s
    then none
    else some s

unfoldable pub candidate : List Bytes → Option Bytes
unfolding is_hosts_address rule_candidate
candidate [] = none
candidate (first ∷ []) = rule_candidate first
candidate (first ∷ second ∷ rest) =
    if is_hosts_address first then some second else rule_candidate first

abbrev pub domain_or_none : Result DomainError Bytes → Option Bytes
domain_or_none (err e) = none
domain_or_none (ok domain) = some domain

unfoldable pub parse_candidate : Option Bytes → Option Bytes
unfolding normalize_domain trim_prefix
parse_candidate none = none
parse_candidate (some s) = domain_or_none (normalize_domain (trim_prefix (codes ".") s))

unfoldable pub parse_trimmed : Bytes → Option Bytes
unfolding is_cosmetic has_prefix before_byte fields candidate parse_candidate trim_space
parse_trimmed line =
    if length line == 0 || has_prefix (codes "#") line || has_prefix (codes "!") line
    then none
    else if is_cosmetic line
    then none
    else parse_candidate (candidate (fields (trim_space (before_byte b'#' line))))

-- `parseBlocklistLine`.
unfoldable pub parse_blocklist_line : Bytes → Option Bytes
unfolding parse_trimmed trim_space
parse_blocklist_line line = parse_trimmed (trim_space line)

abbrev pub max_line_bytes : ℕ
max_line_bytes = 1048576

abbrev drop_first_return : Bytes → Bytes
drop_first_return [] = []
drop_first_return (c ∷ s) = if c == 13 then s else c ∷ s

abbrev pub drop_return : Bytes → Bytes
drop_return line = reverse (drop_first_return (reverse line))

abbrev pub add_seen : Option Bytes → List Bytes → List Bytes
add_seen none seen = seen
add_seen (some domain) seen = if contains_string domain seen then seen else domain ∷ seen

-- The loop over the lines.
unfoldable pub scan_lines : List Bytes → List Bytes → Result RefreshError (List Bytes)
unfolding parse_blocklist_line contains_string
scan_lines seen [] = ok seen
scan_lines seen (line ∷ lines) =
    let rest = scan_lines (add_seen (parse_blocklist_line (drop_return line)) seen) lines in
    if ltb (length line) max_line_bytes then rest else err line_too_long

-- `Parse`; `read_ok` is whether the reader gives the whole text.
unfoldable pub parse : Bool → Bytes → Result RefreshError (List Bytes)
unfolding scan_lines split sort_strings
parse read_ok text = elim (scan_lines [] (split 10 text)) [
  | err e ↦ err e
  | ok seen ↦ if read_ok then ok (sort_strings seen) else err read_failed
]
