-- ===== src/Retention.antt =====
-- internal/retention/retention.go: how long history is kept, and its deletion in batches. A table is
-- the list of its rows' timestamps in the order of their ids, in whole seconds.
pub mod Batches
mod Examples
use faro.Prelude.{
  nat_eq, ℕ, zero, suc, ◌+◌, ◌-◌, Bool, true, false, not, ◌&&◌, ◌||◌, List, [], ◌∷◌, Option, none,
  some, if◌then◌else◌, ltb, leb, ◌==◌,
}
use faro.Strings.{Bytes}
use faro.Encoding.{Int64, parse_int}

abbrev pub default_days : ℕ
default_days = 30

abbrev pub min_days : ℕ
min_days = 1

abbrev pub max_days : ℕ
max_days = 3650

abbrev pub prune_batch_size : ℕ
prune_batch_size = 5000

unfoldable pub days_of : Option Int64 → ℕ
days_of none = default_days
days_of (some n) = if n.0 || ltb n.1 min_days || ltb max_days n.1 then default_days else n.1

-- `ConfiguredDays`; `raw` is `none` where the setting is not there.
unfoldable pub configured_days : Option Bytes → ℕ
unfolding days_of
configured_days none = default_days
configured_days (some raw) = days_of (parse_int raw)

-- One statement: the first `limit` rows before the cutoff go.
unfoldable pub delete_rows : ℕ → ℕ → List ℕ → List ℕ
delete_rows cutoff limit [] = []
delete_rows cutoff limit (t ∷ l) =
    let gone = delete_rows cutoff (limit - 1) l in
    let kept = t ∷ delete_rows cutoff limit l in
    if ltb t cutoff && not (limit == 0) then gone else kept

-- `RowsAffected`.
unfoldable pub rows_affected : ℕ → ℕ → List ℕ → ℕ
rows_affected cutoff limit [] = 0
rows_affected cutoff limit (t ∷ l) =
    let gone = suc (rows_affected cutoff (limit - 1) l) in
    let kept = rows_affected cutoff limit l in
    if ltb t cutoff && not (limit == 0) then gone else kept

-- The table, the number of deleted rows, and whether a statement failed.
pub record Outcome : Type 0 where
  pub rows : List ℕ
  pub deleted : ℕ
  pub failed : Bool

-- `deleteExpiredRows` on fuel; `statement_ok n` says whether the n-th statement succeeds.
unfoldable pub delete_expired_rows : ℕ → (ℕ → Bool) → ℕ → ℕ → List ℕ → ℕ → Option Outcome
delete_expired_rows zero statement_ok n cutoff rows deleted = none
delete_expired_rows (suc fuel) statement_ok n cutoff rows deleted =
    let batch = rows_affected cutoff prune_batch_size rows in
    let rest = delete_rows cutoff prune_batch_size rows in
    let more = delete_expired_rows fuel statement_ok (n + 1) cutoff rest (deleted + batch) in
    if not (statement_ok n)
    then some (record { rows = rows; deleted = deleted; failed = true })
    else if ltb batch prune_batch_size
    then some (record { rows = rest; deleted = deleted + batch; failed = false })
    else more
