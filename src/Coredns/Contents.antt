-- ===== src/Coredns/Contents.antt =====
-- How each step on the configuration directory changes what a reader sees under a name.
use faro.Prelude.{
  nat_eq, ◌≡◌, refl, inl, inr, true, false, ◌||◌, List, [], ◌∷◌, Option, none, some, arith,
  if◌then◌else◌, ◌==◌, ok, Result-cases, Bool-cases, Option-cases,
}
use faro.Prelude.Maps.{lookup, delete, lookup-insert, lookup-delete}
use faro.Strings.{Bytes, bytes_eq, bytes_iff, contains_string}
use faro.Coredns.Corefile.{Files, file_content}
use faro.Coredns.Files.{
  Dir, Disk, regular_file, content_of, snapshot_entry, snapshot_from, snapshot_files, write_file,
  rollback_entry, rollback, write_all, remove_all,
}

content_of-write :
    (name n c : Bytes) (d : Dir)
    → content_of n (write_file name c d) ≡ (if name == n then some c else content_of n d)
unfolding content_of write_file
content_of-write name n c d = ground (arith, lookup-insert name n (regular_file c) d)

content_of-delete :
    (name n : Bytes) (d : Dir)
    → content_of n (delete name d) ≡ (if name == n then none else content_of n d)
unfolding content_of
content_of-delete name n d = ground (arith, lookup-delete name n d)

-- The new files are in place, if no write fails.
pub write_all_content :
    (disk : Disk) (files : Files) (names : List Bytes) (d : Dir) (n : Bytes)
    → (write_all disk files names d).1 ≡ none
    → content_of n (write_all disk files names d).0
      ≡ (if contains_string n names then some (file_content n files) else content_of n d)
unfolding write_all contains_string
write_all_content disk files [] d n e = refl
write_all_content disk files (m ∷ ms) d n e = ground (
  arith,
  write_all_content disk files ms (write_file m (file_content m files) d) n,
  content_of-write m n (file_content m files) d,
  bytes_iff m n,
)

-- A name that is not written keeps its content, also when a write fails.
pub write_all_other :
    (disk : Disk) (files : Files) (names : List Bytes) (d : Dir) (n : Bytes)
    → contains_string n names ≡ false
    → content_of n (write_all disk files names d).0 ≡ content_of n d
unfolding write_all contains_string
write_all_other disk files [] d n e = refl
write_all_other disk files (m ∷ ms) d n e = ground (
  arith,
  write_all_other disk files ms (write_file m (file_content m files) d) n,
  content_of-write m n (file_content m files) d,
)

pub remove_all_other :
    (disk : Disk) (names : List Bytes) (d : Dir) (n : Bytes)
    → contains_string n names ≡ false
    → content_of n (remove_all disk names d).0 ≡ content_of n d
unfolding remove_all contains_string
remove_all_other disk [] d n e = refl
remove_all_other disk (m ∷ ms) d n e =
    ground (arith, remove_all_other disk ms (delete m d) n, content_of-delete m n d)

pub remove_all_content :
    (disk : Disk) (names : List Bytes) (d : Dir) (n : Bytes)
    → (remove_all disk names d).1 ≡ none
    → content_of n (remove_all disk names d).0
      ≡ (if contains_string n names then none else content_of n d)
unfolding remove_all contains_string
remove_all_content disk [] d n e = refl
remove_all_content disk (m ∷ ms) d n e =
    ground (arith, remove_all_content disk ms (delete m d) n, content_of-delete m n d)

-- Every call of the restore path succeeds.
abbrev pub Restores : Disk → Type 0
Restores disk = (n : Bytes) → disk.restore_ok n ≡ true

rollback_entry_content :
    (disk : Disk) (name n : Bytes) (o : Option Bytes) (d : Dir)
    → Restores disk
    → content_of n (rollback_entry disk name o d) ≡ (if name == n then o else content_of n d)
unfolding rollback_entry
rollback_entry_content disk name n none d r = ground (arith, r name, content_of-delete name n d)
rollback_entry_content disk name n (some c) d r =
    ground (arith, r name, content_of-write name n c d)

-- A rollback puts each touched name back to its backup, and leaves the others.
pub rollback_content :
    (disk : Disk) (backups : Files) (names : List Bytes) (d : Dir) (n : Bytes)
    → Restores disk
    → content_of n (rollback disk backups names d)
      ≡ (if contains_string n names then lookup n backups else content_of n d)
unfolding rollback contains_string
rollback_content disk backups [] d n r = refl
rollback_content disk backups (m ∷ ms) d n r = ground (
  arith,
  rollback_content disk backups ms (rollback_entry disk m (lookup m backups) d) n r,
  rollback_entry_content disk m n (lookup m backups) d r,
  bytes_iff m n,
)

snapshot_entry_content :
    (name n : Bytes) (b b' : Files) (d : Dir)
    → snapshot_entry name b (lookup name d) ≡ ok b'
    → lookup name b ≡ none
    → lookup n b' ≡ (if name == n then content_of n d else lookup n b)
unfolding snapshot_entry content_of
snapshot_entry_content name n b b' d e fresh = elim (Option-cases (lookup name d)) [
  | inl gone ↦ ground (arith, e, gone, fresh, bytes_iff name n)
  | inr (f, found) ↦ ground (arith, e, found, bytes_iff name n, lookup-insert name n f.content b)
]

-- What the backups hold once the names in `seen` have been read.
abbrev pub Backed : Dir → List Bytes → Files → Bytes → Type 0
Backed d seen b n = lookup n b ≡ (if contains_string n seen then content_of n d else none)

snapshot_step :
    (d : Dir) (seen : List Bytes) (b b' : Files) (name : Bytes)
    → contains_string name seen ≡ false
    → snapshot_entry name b (lookup name d) ≡ ok b'
    → ((n : Bytes) → Backed d seen b n)
    → (n : Bytes) → Backed d (name ∷ seen) b' n
unfolding contains_string
snapshot_step d seen b b' name new e inv n =
    ground (arith, new, inv n, inv name, snapshot_entry_content name n b b' d e, bytes_iff name n)

snapshot_from_content :
    (d : Dir) (seen : List Bytes) (b b' : Files) (names : List Bytes)
    → snapshot_from d seen b names ≡ ok b'
    → ((n : Bytes) → Backed d seen b n)
    → (n : Bytes)
    → lookup n b'
      ≡ (if contains_string n seen || contains_string n names then content_of n d else none)
unfolding snapshot_from contains_string
snapshot_from_content d seen b b' [] e inv n = ground (arith, inv n)
snapshot_from_content d seen b b' (name ∷ names) e inv n =
    elim (Bool-cases (contains_string name seen)) [
      | inl old ↦
          let h = snapshot_from_content d seen b b' names (ground (arith, old, e)) inv n in
          ground (arith, h, old, bytes_iff name n)
      | inr new ↦ elim (Result-cases (snapshot_entry name b (lookup name d))) [
        | inl (more, read) ↦
            let h =
              snapshot_from_content d (name ∷ seen) more b' names (ground (arith, new, read, e))
                (snapshot_step d seen b more name new read inv) n in
            ground (arith, h)
        | inr (why, failed) ↦ absurd (ground (arith, new, failed, e))
      ]
    ]

-- The backups hold what the directory held under each name asked for.
pub snapshot_files_content :
    (d : Dir) (names : List Bytes) (b : Files)
    → snapshot_files d names ≡ ok b
    → (n : Bytes) → lookup n b ≡ (if contains_string n names then content_of n d else none)
unfolding snapshot_files contains_string
snapshot_files_content d names b e n = snapshot_from_content d [] [] b names e (λ m. refl) n
