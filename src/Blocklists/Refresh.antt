-- ===== src/Blocklists/Refresh.antt =====
-- internal/blocklists/blocklists.go: `Refresh`, `RefreshAndApply` and what they call on the tables.
-- The entries of a list are its domains in the order of `ORDER BY domain`, each once by the schema.
use faro.Prelude.{
  nat_eq, ℕ, suc, ◌+◌, ◌-◌, Bool, true, not, ◌&&◌, List, [], ◌∷◌, Option, none, some, leb,
  if◌then◌else◌, ◌==◌, length, Result, ok, err, ◌>>=◌, ◌>>◌, guard,
}
use faro.Strings.{Bytes}
use faro.Blocklists.{
  RefreshError, no_list, open_failed, download_too_large, no_domains, begin_failed, delete_failed,
  prepare_failed, insert_failed, update_failed, commit_failed, snapshot_failed, restored,
  not_restored, parse,
}

-- A row of `blocklists` with its entries; times are seconds.
pub record ListRow : Type 0 where
  pub url : Bytes
  pub enabled : Bool
  pub last_refreshed_at : Option ℕ
  pub updated_at : ℕ
  pub domains : List Bytes

abbrev pub Lists : Type 0
Lists = List (ℕ × ListRow)

-- `listSnapshot`.
pub record ListSnapshot : Type 0 where
  pub domains : List Bytes
  pub last_refreshed_at : Option ℕ
  pub updated_at : ℕ

-- Which statements of one transaction succeed; `insert_ok n` is the n-th insertion.
pub record Tx : Type 0 where
  pub begin_ok : Bool
  pub delete_ok : Bool
  pub prepare_ok : Bool
  pub insert_ok : ℕ → Bool
  pub update_ok : Bool
  pub commit_ok : Bool

-- What one refresh meets: what opening the source gives, and whether it is read to its end.
pub record World : Type 0 where
  pub now : ℕ
  pub body : Bytes → Option Bytes
  pub read_ok : Bool
  pub snapshot_ok : Bool
  pub replace : Tx
  pub restore : Tx

unfoldable pub find_list : ℕ → Lists → Option ListRow
find_list id [] = none
find_list id ((i, row) ∷ l) = if i == id then some row else find_list id l

-- `UPDATE ... WHERE id = ?` on a primary key.
unfoldable pub update_list : ℕ → ListRow → Lists → Lists
update_list id new [] = []
update_list id new ((i, row) ∷ l) =
    if i == id then (i, new) ∷ l else (i, row) ∷ update_list id new l

abbrev pub all_inserted : (ℕ → Bool) → ℕ → List Bytes → Bool
all_inserted insert_ok n [] = true
all_inserted insert_ok n (domain ∷ l) = insert_ok n && all_inserted insert_ok (suc n) l

-- The statements of a transaction that replaces the entries; a failed one rolls it back.
unfoldable pub run_tx : Tx → List Bytes → Result RefreshError (Unit {0})
run_tx tx domains = do
  guard tx.begin_ok begin_failed
  guard tx.delete_ok delete_failed
  guard tx.prepare_ok prepare_failed
  guard (all_inserted tx.insert_ok 0 domains) insert_failed
  guard tx.update_ok update_failed
  guard tx.commit_ok commit_failed
  ok tt

abbrev pub max_download_bytes : ℕ
max_download_bytes = 67108864

abbrev pub take_bytes : ℕ → Bytes → Bytes
take_bytes n [] = []
take_bytes n (c ∷ s) = let rest = take_bytes (n - 1) s in if n == 0 then [] else c ∷ rest

-- What a source gives: `io.LimitedReader` ends the text one byte after the limit.
unfoldable pub read_source : World → ListRow → Result RefreshError (List Bytes)
unfolding parse
read_source w row = elim (w.body row.url) [
  | none ↦ err open_failed
  | some text ↦ do
    domains ← parse w.read_ok (take_bytes (max_download_bytes + 1) text)
    guard (leb (length text) max_download_bytes) download_too_large
    guard (not (length domains == 0)) no_domains
    ok domains
]

abbrev pub refreshed_with : World → ListRow → List Bytes → ListRow
refreshed_with w row domains = record row {
  last_refreshed_at = some w.now;
  updated_at = w.now;
  domains = domains;
}

-- The part of `Refresh` after the row was read: the new row.
unfoldable pub refreshed_row : World → ListRow → Result RefreshError ListRow
unfolding read_source run_tx
refreshed_row w row = do
  domains ← read_source w row
  run_tx w.replace domains
  ok (refreshed_with w row domains)

-- `Refresh`: the tables, and the number of domains.
unfoldable pub refresh : World → ℕ → Lists → Lists × Result RefreshError ℕ
unfolding find_list update_list refreshed_row
refresh w id lists = elim (find_list id lists) [
  | none ↦ (lists, err no_list)
  | some row ↦ elim (refreshed_row w row) [
    | err e ↦ (lists, err e)
    | ok new ↦ (update_list id new lists, ok (length new.domains))
  ]
]

unfoldable pub snapshot : World → ℕ → Lists → Result RefreshError ListSnapshot
unfolding find_list
snapshot w id lists = elim (find_list id lists) [
  | none ↦ err no_list
  | some row ↦
      if w.snapshot_ok
      then ok (record {
        domains = row.domains;
        last_refreshed_at = row.last_refreshed_at;
        updated_at = row.updated_at;
      })
      else err snapshot_failed
]

abbrev pub put_back : ListSnapshot → ListRow → ListRow
put_back s row = record row {
  last_refreshed_at = s.last_refreshed_at;
  updated_at = s.updated_at;
  domains = s.domains;
}

abbrev restore_row : ListSnapshot → ℕ → Option ListRow → Lists → Lists
restore_row s id none lists = lists
restore_row s id (some row) lists = update_list id (put_back s row) lists

unfoldable pub restore : World → ℕ → ListSnapshot → Lists → Lists × Result RefreshError (Unit {0})
unfolding find_list update_list run_tx
restore w id s lists = elim (run_tx w.restore s.domains) [
  | err e ↦ (lists, err e)
  | ok u ↦ (restore_row s id (find_list id lists) lists, ok u)
]

abbrev pub after_restore : Lists × Result RefreshError (Unit {0}) → Lists × Result RefreshError ℕ
after_restore (lists, err e) = (lists, err (not_restored e))
after_restore (lists, ok u) = (lists, err restored)

-- `apply` is `none` where the caller gives no function; its second call, after the restoration, is
-- made for its effect on CoreDNS, and its result is dropped.
unfoldable pub apply_refreshed :
    Option (Lists → Bool)
    → World
    → ℕ
    → ListSnapshot
    → Lists × Result RefreshError ℕ
    → Lists × Result RefreshError ℕ
unfolding restore
apply_refreshed apply w id s (lists, err e) = (lists, err e)
apply_refreshed none w id s (lists, ok count) = (lists, ok count)
apply_refreshed (some apply) w id s (lists, ok count) =
    if apply lists then (lists, ok count) else after_restore (restore w id s lists)

-- `RefreshAndApply`.
unfoldable pub refresh_and_apply :
    Option (Lists → Bool) → World → ℕ → Lists → Lists × Result RefreshError ℕ
unfolding snapshot refresh apply_refreshed
refresh_and_apply apply w id lists = elim (snapshot w id lists) [
  | err e ↦ (lists, err e)
  | ok s ↦ apply_refreshed apply w id s (refresh w id lists)
]
