-- ===== src/Coredns/Complete.antt =====
-- The Corefile and its hosts files, as the engine finds them after an `Apply`.
use faro.Prelude.{
  nat_eq, ◌≡◌, sym, ap, ◌∙◌, ◌≢◌, true, List, [], none, some, arith, inl, inr, Option-cases, ok,
  is_some,
}
use faro.Prelude.Maps.{lookup, HasUniqueKeys}
use faro.Strings.{Bytes, bytes_eq, contains_string, contains, has_prefix}
use faro.Coredns.Corefile.{
  Files, corefile_name, file_content, content_or_empty, corefile_host_files,
  validate_generated_files,
}
use faro.Coredns.Files.{Dir, content_of}
use faro.Coredns.Apply.{World, Transport, State, apply}
use faro.Coredns.Success.{installed, lookup_of_contains, apply_success}
use faro.Coredns.Names.{validate_generated_files_closed}

corefile_there :
    (files : Files)
    → validate_generated_files files ≡ ok tt
    → is_some (lookup corefile_name files) ≡ true
unfolding validate_generated_files contains has_prefix
corefile_there files e = elim (Option-cases (lookup corefile_name files)) [
  | inl gone ↦ absurd (ground (arith, e, gone))
  | inr (c, found) ↦ rw found
]

installed_there :
    (files : Files) (d : Dir) (n : Bytes)
    → is_some (lookup n files) ≡ true
    → installed files d n ≡ some (file_content n files)
installed_there files d n h = rw (sym (lookup_of_contains n files) ∙ h)

-- After an `Apply` without error the Corefile in the directory names hosts files, and each of them is
-- in the directory with the content that was generated for it.
pub apply_complete :
    {L : Type 0} (t : Transport L) (w : World) (files : Files) (s : State t) (h : Bytes)
    → HasUniqueKeys s.dir
    → (apply t w (ok files) s).1 ≡ none
    → w.corefile_hash (file_content corefile_name files) ≡ some h
    → let d = (apply t w (ok files) s).0.dir in
      (names : List Bytes) × (corefile_host_files (content_or_empty (content_of corefile_name d))
        ≡ ok names)
      × (names ≢ [])
      × ((n : Bytes)
          → contains_string n names ≡ true
          → content_of n d ≡ some (file_content n files))
unfolding content_or_empty
apply_complete t w files s h u e hashed =
    let (shown, valid, flag, live) = apply_success t w files s h u e hashed in
    let (names, found, some_names, present, listed) = validate_generated_files_closed files valid in
    let core =
      shown corefile_name
      ∙ installed_there files s.dir corefile_name (corefile_there files valid) in
    (
      names,
      ap (λ c. corefile_host_files (content_or_empty c)) core ∙ found,
      some_names,
      λ n k. shown n ∙ installed_there files s.dir n (present n k),
    )
