-- ===== src/Coredns/Corefile.antt =====
-- internal/coredns/coredns.go: which hosts files a Corefile names, and the checks on a set of
-- generated files. A file set is a list of names with contents; a Go map's order shows only in which
-- of several faults an error names.
use mathlib.Core.List.{reverse}
use faro.Prelude.{
  nat_eq, string_eq, ℕ, ◌+◌, Bool, true, false, not, ◌&&◌, ◌||◌, List, [], ◌∷◌, map, Option, none,
  some, ltb, leb, if◌then◌else◌, ◌==◌, length, is_some, Result, ok, err, ◌>>=◌, ◌>>◌, guard,
}
use faro.Prelude.Maps.{lookup}
use faro.Strings.{
  Bytes, codes, bytes_eq, trim_space, split, fields, cut_prefix, has_prefix, has_suffix, contains,
  sort_strings, contains_string,
}
use faro.Coredns.Errors.{
  ApplyError, missing_server_block, unsafe_hosts_file, no_hosts_files, missing_hosts_file,
  unreferenced_hosts_file, bad_file_count, unexpected_file, unsafe_file_name, too_large,
}

abbrev pub Files : Type 0
Files = List (Bytes × Bytes)

unfoldable pub corefile_name : Bytes
corefile_name = codes "Corefile"

unfoldable pub path_prefix : Bytes
path_prefix = codes "/etc/coredns/"

unfoldable pub hosts_word : Bytes
hosts_word = codes "hosts"

unfoldable pub hosts_suffix : Bytes
hosts_suffix = codes ".hosts"

abbrev pub slash : ℕ
slash = b'/'

unfoldable pub drop_slashes : Bytes → Bytes
drop_slashes [] = []
drop_slashes (c ∷ s) = if c == slash then drop_slashes s else c ∷ s

unfoldable pub take_to_slash : Bytes → Bytes
take_to_slash [] = []
take_to_slash (c ∷ s) = if c == slash then [] else c ∷ take_to_slash s

abbrev pub base_of : Bytes → Bytes
base_of [] = slash ∷ []
base_of (c ∷ s) = reverse (take_to_slash (c ∷ s))

-- `filepath.Base` on Unix.
unfoldable pub base : Bytes → Bytes
unfolding drop_slashes take_to_slash
base [] = codes "."
base (c ∷ s) = base_of (drop_slashes (reverse (c ∷ s)))

-- What one line of a Corefile adds: nothing, a hosts file, or a fault.
pub data HostLine : Type 0 where
  other unsafe : HostLine
  named : Bytes → HostLine

unfoldable pub host_name : Bytes → HostLine
unfolding base has_suffix hosts_suffix
host_name name =
    if not (base name == name) || not (has_suffix hosts_suffix name) then unsafe else named name

unfoldable pub host_path : Option Bytes → HostLine
unfolding host_name
host_path none = other
host_path (some name) = host_name name

unfoldable pub host_fields : List Bytes → HostLine
unfolding host_path cut_prefix hosts_word path_prefix
host_fields [] = other
host_fields (word ∷ []) = other
host_fields (word ∷ path ∷ rest) =
    if not (word == hosts_word) then other else host_path (cut_prefix path_prefix path)

-- The loop over the lines; `seen` is the set of names.
unfoldable pub collect_hosts : List Bytes → List HostLine → Result ApplyError (List Bytes)
collect_hosts seen [] = ok seen
collect_hosts seen (other ∷ lines) = collect_hosts seen lines
collect_hosts seen (unsafe ∷ lines) = err unsafe_hosts_file
collect_hosts seen (named name ∷ lines) =
    collect_hosts (if contains_string name seen then seen else name ∷ seen) lines

unfoldable pub corefile_host_files : Bytes → Result ApplyError (List Bytes)
unfolding collect_hosts host_fields split fields trim_space sort_strings contains_string
corefile_host_files corefile = do
  names ←
      collect_hosts [] (map (λ line. host_fields (fields (trim_space line))) (split 10 corefile))
  ok (sort_strings names)

-- `files["Corefile"]`: a missing key reads as no bytes.
unfoldable pub content_or_empty : Option Bytes → Bytes
content_or_empty none = []
content_or_empty (some c) = c

unfoldable pub file_content : Bytes → Files → Bytes
unfolding content_or_empty
file_content name files = content_or_empty (lookup name files)

unfoldable pub all_present : Files → List Bytes → Result ApplyError (Unit {0})
all_present files [] = ok tt
all_present files (name ∷ names) =
    let rest = all_present files names in
    if is_some (lookup name files) then rest else err (missing_hosts_file name)

unfoldable pub all_referenced : List Bytes → Files → Result ApplyError (Unit {0})
all_referenced names [] = ok tt
all_referenced names ((name, content) ∷ files) =
    let rest = all_referenced names files in
    if name == corefile_name || contains_string name names
    then rest
    else err (unreferenced_hosts_file name)

abbrev pub is_nonempty : List Bytes → Bool
is_nonempty [] = false
is_nonempty (_ ∷ _) = true

unfoldable pub validate_generated_files : Files → Result ApplyError (Unit {0})
unfolding corefile_host_files file_content all_present all_referenced contains corefile_name
validate_generated_files files = do
  let corefile = file_content corefile_name files
  guard (contains (codes ".:53") corefile && contains (codes "forward .") corefile)
      missing_server_block
  names ← corefile_host_files corefile
  guard (is_nonempty names) no_hosts_files
  all_present files names
  all_referenced names files

unfoldable pub is_managed_name : Bytes → Bool
unfolding has_prefix has_suffix base corefile_name hosts_suffix
is_managed_name name =
    name == corefile_name
    || name == codes "faro.hosts"
    || name == codes "local.hosts"
    || name == codes "blocklist.hosts"
    || (has_prefix (codes "protection-") name && has_suffix hosts_suffix name && base name == name)

-- The loop of `validateReplicaFiles`; `total` is an int64 of at most 512 MiB before each addition.
unfoldable pub check_replica_files : ℕ → Files → Result ApplyError (Unit {0})
unfolding has_prefix has_suffix base corefile_name hosts_suffix
check_replica_files total [] = ok tt
check_replica_files total ((name, content) ∷ files) =
    let rest = check_replica_files (total + length content) files in
    if not (
      name == corefile_name
      || name == codes "faro.hosts"
      || name == codes "local.hosts"
      || name == codes "blocklist.hosts"
      || (has_prefix (codes "protection-") name && has_suffix hosts_suffix name))
    then err unexpected_file
    else if not (base name == name)
    then err unsafe_file_name
    else if ltb 536870912 (total + length content)
    then err too_large
    else rest

unfoldable pub validate_replica_files : Files → Result ApplyError (Unit {0})
unfolding check_replica_files validate_generated_files
validate_replica_files files = do
  guard (leb 2 (length files) && leb (length files) 64) bad_file_count
  check_replica_files 0 files
  validate_generated_files files
