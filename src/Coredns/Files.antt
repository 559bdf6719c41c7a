-- ===== src/Coredns/Files.antt =====
-- internal/coredns/coredns.go: the files of the configuration directory, and how a new set replaces
-- the old one. The directory is a map from names to entries. A temporary file is not an entry: it has
-- a hidden name that no reader opens, and it ends as the target or is removed.
use faro.Prelude.{
  nat_eq, Bool, true, not, ◌&&◌, List, [], ◌∷◌, ◌++◌, map, Option, none, some, ltb, if◌then◌else◌,
  ◌==◌, length, is_some, Result, ok, err, ◌>>=◌,
}
use faro.Prelude.Maps.{lookup, insert, delete}
use faro.Strings.{Bytes, bytes_eq, sort_strings, contains_string}
use faro.Coredns.Errors.{ApplyError, read_dir_failed, snapshot_failed, write_failed, remove_failed}
use faro.Coredns.Corefile.{Files, corefile_name, file_content, is_managed_name}

pub record FileEntry : Type 0 where
  pub content : Bytes
  pub is_regular : Bool
  pub is_readable : Bool

abbrev pub Dir : Type 0
Dir = List (Bytes × FileEntry)

-- Which calls of the operating system succeed, by the file they are for. `write_ok` stands for the
-- whole chain from `os.CreateTemp` to `os.Rename`; `damage` is what a failed restore leaves.
pub record Disk : Type 0 where
  pub read_dir_ok : Bool
  pub write_ok : Bytes → Bool
  pub remove_ok : Bytes → Bool
  pub restore_ok : Bytes → Bool
  pub damage : Bytes → Option FileEntry

abbrev pub regular_file : Bytes → FileEntry
regular_file content = record { content = content; is_regular = true; is_readable = true }

abbrev pub put_entry : Bytes → Option FileEntry → Dir → Dir
put_entry name none d = delete name d
put_entry name (some e) d = insert name e d

-- What a reader of the directory sees under a name.
abbrev content_of_entry : Option FileEntry → Option Bytes
content_of_entry none = none
content_of_entry (some e) = some e.content

unfoldable pub content_of : Bytes → Dir → Option Bytes
content_of name d = content_of_entry (lookup name d)

abbrev pub names_of : Files → List Bytes
names_of = map (λ f. f.0)

unfoldable pub file_names : Files → List Bytes
file_names files = sort_strings (names_of files)

-- `snapshotFiles`: the loop over the names, with the names seen and the backups so far.
unfoldable pub snapshot_entry : Bytes → Files → Option FileEntry → Result ApplyError Files
snapshot_entry name backups none = ok backups
snapshot_entry name backups (some e) =
    if e.is_readable then ok (insert name e.content backups) else err snapshot_failed

unfoldable pub snapshot_from : Dir → List Bytes → Files → List Bytes → Result ApplyError Files
unfolding snapshot_entry
snapshot_from d seen backups [] = ok backups
snapshot_from d seen backups (name ∷ names) =
    let skip = snapshot_from d seen backups names in
    let read = snapshot_entry name backups (lookup name d) >>= λ more.
    snapshot_from d (name ∷ seen) more names in
    if contains_string name seen then skip else read

unfoldable pub snapshot_files : Dir → List Bytes → Result ApplyError Files
unfolding snapshot_from
snapshot_files d names = snapshot_from d [] [] names

unfoldable pub stale_names : Files → Dir → List Bytes
stale_names desired [] = []
stale_names desired ((name, e) ∷ d) =
    if is_managed_name name && not (is_some (lookup name desired)) && e.is_regular
    then name ∷ stale_names desired d
    else stale_names desired d

unfoldable pub stale_managed_files : Disk → Dir → Files → Result ApplyError (List Bytes)
unfolding stale_names
stale_managed_files disk d desired =
    if disk.read_dir_ok then ok (sort_strings (stale_names desired d)) else err read_dir_failed

unfoldable pub take_out : Bytes → List Bytes → List Bytes
take_out name [] = []
take_out name (n ∷ names) = if n == name then names else n ∷ take_out name names

-- The order of the writes: sorted, the Corefile last.
unfoldable pub write_order : Files → List Bytes
unfolding file_names take_out
write_order files =
    let names = file_names files in
    if ltb 1 (length names) && contains_string corefile_name names
    then take_out corefile_name names ++ corefile_name ∷ []
    else names

unfoldable pub write_file : Bytes → Bytes → Dir → Dir
write_file name content d = insert name (regular_file content) d

unfoldable pub rollback_entry : Disk → Bytes → Option Bytes → Dir → Dir
unfolding write_file
rollback_entry disk name (some content) d =
    if disk.restore_ok name then write_file name content d else put_entry name (disk.damage name) d
rollback_entry disk name none d = if disk.restore_ok name then delete name d else d

-- `rollback`: errors are ignored.
unfoldable pub rollback : Disk → Files → List Bytes → Dir → Dir
unfolding rollback_entry
rollback disk backups [] d = d
rollback disk backups (name ∷ names) d =
    rollback disk backups names (rollback_entry disk name (lookup name backups) d)

-- The loop over the new files; it stops at the first one that cannot be put in place.
unfoldable pub write_all : Disk → Files → List Bytes → Dir → Dir × Option ApplyError
unfolding write_file file_content
write_all disk files [] d = (d, none)
write_all disk files (name ∷ names) d =
    let rest = write_all disk files names (write_file name (file_content name files) d) in
    if disk.write_ok name then rest else (d, some (write_failed name))

-- The loop over the stale files; a file that is gone is no error.
unfoldable pub remove_all : Disk → List Bytes → Dir → Dir × Option ApplyError
remove_all disk [] d = (d, none)
remove_all disk (name ∷ names) d =
    let rest = remove_all disk names (delete name d) in
    if disk.remove_ok name
    then rest
    else if is_some (lookup name d)
    then (d, some (remove_failed name))
    else rest

unfoldable pub after_failure :
    Disk → Files → List Bytes → Dir × Option ApplyError → Dir × Option ApplyError
unfolding rollback
after_failure disk backups touched (d, none) = (d, none)
after_failure disk backups touched (d, some e) = (rollback disk backups touched d, some e)

unfoldable pub then_remove : Disk → List Bytes → Dir × Option ApplyError → Dir × Option ApplyError
unfolding remove_all
then_remove disk stale (d, none) = remove_all disk stale d
then_remove disk stale (d, some e) = (d, some e)

unfoldable pub replace_with_rollback :
    Disk → Files → List Bytes → Files → List Bytes → Dir → Dir × Option ApplyError
unfolding write_order write_all then_remove after_failure
replace_with_rollback disk files stale backups touched d =
    after_failure disk backups touched
      (then_remove disk stale (write_all disk files (write_order files) d))
