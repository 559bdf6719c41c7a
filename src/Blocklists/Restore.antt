-- ===== src/Blocklists/Restore.antt =====
-- internal/blocklists/blocklists.go: what `RefreshAndApply` leaves in the tables.
use faro.Prelude.{
  nat_eq, ℕ, ◌+◌, ◌≤◌, ◌≡◌, refl, sym, subst, Bool, true, List, [], ◌∷◌, Option, none, some, ◌⊎◌,
  inl, inr, arith, length, Bool-cases, Option-cases, Result-cases, Result, ok, err, if◌then◌else◌,
}
use faro.Strings.{Bytes}
use faro.Blocklists.{RefreshError, not_restored, restored, parse}
use faro.Blocklists.Refresh.{
  ListRow, Lists, ListSnapshot, World, take_bytes, max_download_bytes, find_list, update_list,
  read_source, run_tx, refreshed_with, refreshed_row, refresh, snapshot, restore, after_restore,
  apply_refreshed, refresh_and_apply,
}

-- The new entries are in force: `apply` took the tables that hold them.
abbrev IsAccepted : Option (Lists → Bool) → Lists → Type 0
IsAccepted none lists = Unit
IsAccepted (some apply) lists = (apply lists ≡ true)

-- What a refresh of one list may leave.
abbrev pub IsRefreshed :
    Option (Lists → Bool) → World → ℕ → Lists → Lists × Result RefreshError ℕ → Type 0
IsRefreshed apply w id lists (after, ok count) =
    (row : ListRow) × (new : ListRow) × (find_list id lists ≡ some row)
    × (after ≡ update_list id new lists)
    × (new.last_refreshed_at ≡ some w.now)
    × (count ≡ length new.domains)
    × (1 ≤ count)
    × IsAccepted apply after
IsRefreshed apply w id lists (after, err e) =
    (after ≡ lists)
    ⊎ ((f : RefreshError) × (new : ListRow) × (e ≡ not_restored f)
        × (after ≡ update_list id new lists))

pub find_list-update_list :
    (id : ℕ) (row new : ListRow) (lists : Lists)
    → find_list id lists ≡ some row
    → find_list id (update_list id new lists) ≡ some new
unfolding find_list update_list
find_list-update_list id row new [] h = absurd (ground arith)
find_list-update_list id row new ((i, r) ∷ l) h = ground (arith, find_list-update_list id row new l)

update_list-back :
    (id : ℕ) (row new : ListRow) (lists : Lists)
    → find_list id lists ≡ some row
    → update_list id row (update_list id new lists) ≡ lists
unfolding find_list update_list
update_list-back id row new [] h = absurd (ground arith)
update_list-back id row new ((i, r) ∷ l) h = ground (arith, update_list-back id row new l)

read_source_nonempty :
    (w : World) (row : ListRow) (domains : List Bytes)
    → read_source w row ≡ ok domains
    → 1 ≤ length domains
unfolding read_source
read_source_nonempty w row domains h = elim (Option-cases (w.body row.url)) [
  | inl a ↦ absurd (ground arith)
  | inr (text, a) ↦
      elim (Result-cases (parse w.read_ok (take_bytes (max_download_bytes + 1) text))) [
        | inr (f, b) ↦ absurd (ground arith)
        | inl (found, b) ↦ ground arith
      ]
]

refreshed_row_lem :
    (w : World) (row new : ListRow)
    → refreshed_row w row ≡ ok new
    → (domains : List Bytes) × (new ≡ refreshed_with w row domains) × (1 ≤ length domains)
unfolding refreshed_row
refreshed_row_lem w row new h = elim (Result-cases (read_source w row)) [
  | inr (f, a) ↦ absurd (ground arith)
  | inl (domains, a) ↦ elim (Result-cases (run_tx w.replace domains)) [
    | inr (f, b) ↦ absurd (ground arith)
    | inl (u, b) ↦ (domains, ground arith, read_source_nonempty w row domains a)
  ]
]

abbrev saved_row : ListRow → ListSnapshot
saved_row row = record {
  domains = row.domains;
  last_refreshed_at = row.last_refreshed_at;
  updated_at = row.updated_at;
}

-- A failed `apply` ends with the tables as they were, or with the error of a failed restoration.
restore-refreshed_with :
    (apply : Option (Lists → Bool)) (w : World) (id : ℕ) (row : ListRow) (domains : List Bytes)
    (lists : Lists)
    → find_list id lists ≡ some row
    → IsRefreshed apply w id lists (
        after_restore
          (restore w id (saved_row row) (update_list id (refreshed_with w row domains) lists)))
unfolding restore
restore-refreshed_with apply w id row domains lists h =
    let new = refreshed_with w row domains in
    let held = update_list id new lists in
    let tried = after_restore (restore w id (saved_row row) held) in
    elim (Result-cases (run_tx w.restore row.domains)) [
      | inr (f, a) ↦
          let out : tried ≡ (held, err (not_restored f)) = ground (arith, a) in
          subst (IsRefreshed apply w id lists) (sym out) (inr (f, new, refl, refl))
      | inl (u, a) ↦
          let found = find_list-update_list id row new lists h in
          let back = update_list-back id row new lists h in
          let out : tried ≡ (lists, err restored) = ground (arith, a, found, back) in
          subst (IsRefreshed apply w id lists) (sym out) (inl refl)
    ]

apply_refreshed-IsRefreshed :
    (apply : Option (Lists → Bool)) (w : World) (id : ℕ) (row : ListRow) (domains : List Bytes)
    (lists : Lists)
    → find_list id lists ≡ some row
    → 1 ≤ length domains
    → IsRefreshed apply w id lists (
        apply_refreshed apply w id
          (saved_row row)
          (update_list id (refreshed_with w row domains) lists, ok (length domains)))
unfolding apply_refreshed
apply_refreshed-IsRefreshed none w id row domains lists h some_domain =
    (row, refreshed_with w row domains, h, refl, refl, refl, some_domain, tt)
apply_refreshed-IsRefreshed (some apply) w id row domains lists h some_domain =
    let held = update_list id (refreshed_with w row domains) lists in
    let tried = after_restore (restore w id (saved_row row) held) in
    elim (Bool-cases (apply held)) [
      | inl y ↦
          let out : (if apply held then (held, ok (length domains)) else tried)
              ≡ (held, ok (length domains)) =
            ground arith in
          subst (IsRefreshed (some apply) w id lists) (sym out)
            (row, refreshed_with w row domains, h, refl, refl, refl, some_domain, y)
      | inr n ↦
          let out : (if apply held then (held, ok (length domains)) else tried) ≡ tried =
            ground arith in
          subst (IsRefreshed (some apply) w id lists) (sym out)
            (restore-refreshed_with (some apply) w id row domains lists h)
    ]

refresh_of :
    (w : World) (id : ℕ) (row : ListRow) (lists : Lists)
    → find_list id lists ≡ some row
    → ((e : RefreshError) × (refresh w id lists ≡ (lists, err e)))
      ⊎ ((domains : List Bytes) × (refresh w id lists
            ≡ (update_list id (refreshed_with w row domains) lists, ok (length domains)))
          × (1 ≤ length domains))
unfolding refresh
refresh_of w id row lists h = elim (Result-cases (refreshed_row w row)) [
  | inr (e, a) ↦ inl (e, ground arith)
  | inl (new, a) ↦
      let (domains, same, some_domain) = refreshed_row_lem w row new a in
      inr (domains, ground (arith, same), some_domain)
]

-- A refresh that succeeds has refreshed_with the entries of that list alone, by at least one domain, and
-- `apply` took the tables that hold them. A refresh that fails, in the download, a statement or
-- `apply`, leaves every list with the entries and the timestamps that it had, unless it reports that
-- the restoration failed too.
pub refresh_and_apply-IsRefreshed :
    (apply : Option (Lists → Bool)) (w : World) (id : ℕ) (lists : Lists)
    → IsRefreshed apply w id lists (refresh_and_apply apply w id lists)
unfolding refresh_and_apply snapshot
refresh_and_apply-IsRefreshed apply w id lists = elim (Result-cases (snapshot w id lists)) [
  | inr (e, a) ↦
      let out : refresh_and_apply apply w id lists ≡ (lists, err e) = ground arith in
      subst (IsRefreshed apply w id lists) (sym out) (inl refl)
  | inl (s, a) ↦ elim (Option-cases (find_list id lists)) [
    | inl n ↦ absurd (ground arith)
    | inr (row, f) ↦
        let taken : s ≡ saved_row row = ground arith in
        elim (refresh_of w id row lists f) [
          | inl (e, b) ↦
              let out : refresh_and_apply apply w id lists ≡ (lists, err e) = ground arith in
              subst (IsRefreshed apply w id lists) (sym out) (inl refl)
          | inr (domains, b, some_domain) ↦
              let out : refresh_and_apply apply w id lists
                  ≡ apply_refreshed apply w id (saved_row row)
                      (update_list id (refreshed_with w row domains) lists, ok (length domains)) =
                ground (arith, taken) in
              subst (IsRefreshed apply w id lists) (sym out)
                (apply_refreshed-IsRefreshed apply w id row domains lists f some_domain)
        ]
  ]
]
