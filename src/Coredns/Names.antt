-- ===== src/Coredns/Names.antt =====
-- The names that a Corefile or a replicated set may bring into the configuration directory.
use mathlib.Core.List.{reverse, reverse-cons}
use faro.Prelude.{
  nat_eq, ℕ, ◌≡◌, refl, sym, ap, subst, ◌∙◌, ◌⊎◌, inl, inr, ◌≢◌, true, false, ◌||◌, List, [], ◌∷◌,
  ◌++◌, map, Option, none, some, arith, if◌then◌else◌, ◌==◌, Bool-cases, ok, Result-cases, is_some,
}
use faro.Prelude.Maps.{lookup}
use faro.Strings.{
  Bytes, bytes_eq, bytes_iff, contains_string, contains_byte, has_suffix, split, fields, trim_space,
  cut_prefix,
}
use faro.Strings.Laws.{contains_string-sort}
use faro.Coredns.Corefile.{
  Files, HostLine, other, unsafe, named, corefile_name, hosts_suffix, slash, drop_slashes,
  take_to_slash, base_of, base, hosts_word, path_prefix, host_name, host_path, host_fields,
  collect_hosts, corefile_host_files, file_content, all_present, all_referenced,
  validate_generated_files,
}
use faro.Coredns.Files.{names_of}

-- A name that stays inside its directory: no path separator, and a hosts suffix.
abbrev pub IsHostName : Bytes → Type 0
IsHostName name = (contains_byte slash name ≡ false) × (has_suffix hosts_suffix name ≡ true)

contains_byte-append :
    (b : ℕ) (s t : Bytes) → contains_byte b (s ++ t) ≡ (contains_byte b s || contains_byte b t)
unfolding contains_byte
contains_byte-append b [] t = refl
contains_byte-append b (c ∷ s) t = ground (arith, contains_byte-append b s t)

contains_byte-reverse : (b : ℕ) (s : Bytes) → contains_byte b (reverse s) ≡ contains_byte b s
unfolding contains_byte
contains_byte-reverse b [] = refl
contains_byte-reverse b (c ∷ s) =
    ap (contains_byte b) (reverse-cons c s)
    ∙ ground (arith, contains_byte-append b (reverse s) (c ∷ []), contains_byte-reverse b s)

take_to_slash-free : (s : Bytes) → contains_byte slash (take_to_slash s) ≡ false
unfolding contains_byte take_to_slash
take_to_slash-free [] = refl
take_to_slash-free (c ∷ s) = ground (arith, take_to_slash-free s)

base_of_free : (s : Bytes) → (contains_byte slash (base_of s) ≡ false) ⊎ (base_of s ≡ slash ∷ [])
base_of_free [] = inr refl
base_of_free (c ∷ s) =
    inl (contains_byte-reverse slash (take_to_slash (c ∷ s)) ∙ take_to_slash-free (c ∷ s))

base_free : (name : Bytes) → (contains_byte slash (base name) ≡ false) ⊎ (base name ≡ slash ∷ [])
unfolding base contains_byte
base_free [] = inl refl
base_free (c ∷ s) = base_of_free (drop_slashes (reverse (c ∷ s)))

slash_alone : has_suffix hosts_suffix (slash ∷ []) ≡ false
unfolding has_suffix hosts_suffix
slash_alone = refl

IsHostName-of_base :
    (name : Bytes) → base name ≡ name → has_suffix hosts_suffix name ≡ true → IsHostName name
IsHostName-of_base name e h = elim (base_free name) [
  | inl free ↦ (ap (contains_byte slash) (sym e) ∙ free, h)
  | inr alone ↦
      absurd (contradiction (sym h ∙ ap (has_suffix hosts_suffix) (sym e ∙ alone) ∙ slash_alone))
]
  where
    contradiction : true ≡ false → ⊥
    contradiction x = cc

host_name_safe : (name found : Bytes) → host_name name ≡ named found → IsHostName found
unfolding host_name
host_name_safe name found e = elim (Bool-cases (base name == name)) [
  | inr other_base ↦ absurd (ground (arith, e, other_base))
  | inl same ↦ elim (Bool-cases (has_suffix hosts_suffix name)) [
    | inr other_suffix ↦ absurd (ground (arith, e, same, other_suffix))
    | inl suffix ↦
        subst IsHostName (ground (arith, e, same, suffix))
          (IsHostName-of_base name ((bytes_iff (base name) name).0 same) suffix)
  ]
]

host_path_safe : (o : Option Bytes) (found : Bytes) → host_path o ≡ named found → IsHostName found
unfolding host_path
host_path_safe none found e = absurd (ground (arith, e))
host_path_safe (some name) found e = host_name_safe name found e

host_fields_safe : (l : List Bytes) (found : Bytes) → host_fields l ≡ named found → IsHostName found
unfolding host_fields
host_fields_safe [] found e = absurd (ground (arith, e))
host_fields_safe (word ∷ []) found e = absurd (ground (arith, e))
host_fields_safe (word ∷ path ∷ rest) found e = elim (Bool-cases (word == hosts_word)) [
  | inr no_hosts ↦ absurd (ground (arith, e, no_hosts))
  | inl hosts ↦ host_path_safe (cut_prefix path_prefix path) found (ground (arith, e, hosts))
]

abbrev pub read_line : Bytes → HostLine
read_line line = host_fields (fields (trim_space line))

AllSafe : List Bytes → Type 0
AllSafe l = (n : Bytes) → contains_string n l ≡ true → IsHostName n

AllSafe-cons : (name : Bytes) (l : List Bytes) → IsHostName name → AllSafe l → AllSafe (name ∷ l)
unfolding AllSafe contains_string
AllSafe-cons name l h safe n e = elim (Bool-cases (name == n)) [
  | inl same ↦ subst IsHostName ((bytes_iff name n).0 same) h
  | inr other_name ↦ safe n (ground (arith, e, other_name))
]

collect_step :
    (name : Bytes) (seen : List Bytes)
    → IsHostName name
    → AllSafe seen
    → AllSafe (if contains_string name seen then seen else name ∷ seen)
collect_step name seen h safe = elim (Bool-cases (contains_string name seen)) [
  | inl old ↦ rw old safe
  | inr new ↦ rw new (AllSafe-cons name seen h safe)
]

collect_line_safe :
    (l : HostLine) (lines : List HostLine) (seen names : List Bytes)
    → ((found : Bytes) → l ≡ named found → IsHostName found)
    → collect_hosts seen (l ∷ lines) ≡ ok names
    → AllSafe seen
    → (seen' : List Bytes) × AllSafe seen' × (collect_hosts seen' lines ≡ ok names)
unfolding collect_hosts
collect_line_safe other lines seen names h e safe = (seen, safe, e)
collect_line_safe unsafe lines seen names h e safe = absurd (ground (arith, e))
collect_line_safe (named name) lines seen names h e safe = (
  if contains_string name seen then seen else name ∷ seen,
  collect_step name seen (h name refl) safe,
  e,
)

collect_hosts_safe :
    (lines : List Bytes) (seen names : List Bytes)
    → collect_hosts seen (map read_line lines) ≡ ok names
    → AllSafe seen
    → AllSafe names
unfolding collect_hosts AllSafe
collect_hosts_safe [] seen names e safe = λ n h. safe n (ground (arith, e, h))
collect_hosts_safe (line ∷ lines) seen names e safe =
    let (seen', safe', rest) =
      collect_line_safe (read_line line) (map read_line lines) seen names
        (λ found. host_fields_safe (fields (trim_space line)) found) e safe in
    collect_hosts_safe lines seen' names rest safe'

-- Every hosts file that is read from a Corefile is named by a single path component with the suffix
-- `.hosts`, so that no Corefile makes Faro touch a file outside the configuration directory.
pub corefile_host_files_safe :
    (corefile : Bytes) (names : List Bytes)
    → corefile_host_files corefile ≡ ok names
    → (n : Bytes) → contains_string n names ≡ true
    → IsHostName n
unfolding corefile_host_files AllSafe contains_string
corefile_host_files_safe corefile names e n h =
    elim (Result-cases (collect_hosts [] (map read_line (split 10 corefile)))) [
      | inr (why, failed) ↦ absurd (ground (arith, e, failed))
      | inl (found, collected) ↦
          collect_hosts_safe (split 10 corefile) [] found collected
            (λ m k. absurd (ground (arith, k))) n
            (sym (contains_string-sort n found)
              ∙ ap (contains_string n) (ground (arith, e, collected))
              ∙ h)
    ]

all_present_lem :
    (files : Files) (names : List Bytes) (n : Bytes)
    → all_present files names ≡ ok tt
    → contains_string n names ≡ true
    → is_some (lookup n files) ≡ true
unfolding all_present contains_string
all_present_lem files [] n e h = cc
all_present_lem files (m ∷ names) n e h =
    ground (arith, all_present_lem files names n, bytes_iff m n, e, h)

all_referenced_lem :
    (names : List Bytes) (files : Files) (n : Bytes)
    → all_referenced names files ≡ ok tt
    → contains_string n (names_of files) ≡ true
    → (n ≡ corefile_name) ⊎ (contains_string n names ≡ true)
unfolding all_referenced contains_string
all_referenced_lem names [] n e h = absurd (ground (arith, h))
all_referenced_lem names ((m, c) ∷ files) n e h =
    ground (arith, all_referenced_lem names files n, bytes_iff m n, bytes_iff m corefile_name, e, h)

-- A generated set that passes the checks is closed: its Corefile names at least one hosts file, each
-- hosts file that it names is in the set, and the set holds nothing else beside the Corefile.
pub validate_generated_files_closed :
    (files : Files)
    → validate_generated_files files ≡ ok tt
    → (names : List Bytes) × (corefile_host_files (file_content corefile_name files) ≡ ok names)
      × (names ≢ [])
      × ((n : Bytes) → contains_string n names ≡ true → is_some (lookup n files) ≡ true)
      × ((n : Bytes)
          → contains_string n (names_of files) ≡ true
          → (n ≡ corefile_name) ⊎ (contains_string n names ≡ true))
unfolding validate_generated_files
validate_generated_files_closed files e =
    elim (Result-cases (corefile_host_files (file_content corefile_name files))) [
      | inr (why, failed) ↦ absurd (ground (arith, e, failed))
      | inl (names, found) ↦ (
        names,
        found,
        ground (arith, e, found),
        λ n h. all_present_lem files names n (ground (arith, e, found)) h,
        λ n h. all_referenced_lem names files n (ground (arith, e, found)) h,
      )
    ]
