-- ===== src/Retention/Batches.antt =====
-- internal/retention/retention.go: the deletion in batches ends, and what it leaves.
use faro.Prelude.{
  nat_eq, ℕ, zero, suc, ◌+◌, ◌-◌, ◌≤◌, ◌<◌, ◌≡◌, refl, ◌∙◌, Bool, true, false, List, [], ◌∷◌,
  Option, none, some, if◌then◌else◌, ltb, length, arith, ◌⊎◌, inl, inr, Bool-cases, Option-cases,
}
use faro.Strings.{Bytes}
use faro.Encoding.{parse_int}
use faro.Retention.{
  min_days, max_days, days_of, configured_days, prune_batch_size, delete_rows, rows_affected,
  Outcome, delete_expired_rows,
}

-- The rows that are not expired.
abbrev pub live_rows : ℕ → List ℕ → List ℕ
live_rows cutoff [] = []
live_rows cutoff (t ∷ l) = if ltb t cutoff then live_rows cutoff l else t ∷ live_rows cutoff l

delete_rows-length :
    (cutoff limit : ℕ) (l : List ℕ)
    → length (delete_rows cutoff limit l) + rows_affected cutoff limit l ≡ length l
unfolding delete_rows rows_affected
delete_rows-length cutoff limit [] = refl
delete_rows-length cutoff limit (t ∷ l) =
    ground (arith, delete_rows-length cutoff (limit - 1) l, delete_rows-length cutoff limit l)

delete_rows-live_rows :
    (cutoff limit : ℕ) (l : List ℕ)
    → live_rows cutoff (delete_rows cutoff limit l) ≡ live_rows cutoff l
unfolding delete_rows
delete_rows-live_rows cutoff limit [] = refl
delete_rows-live_rows cutoff limit (t ∷ l) =
    ground (arith, delete_rows-live_rows cutoff (limit - 1) l, delete_rows-live_rows cutoff limit l)

-- A statement that deletes less than it may leaves no expired row.
delete_rows-short :
    (cutoff limit : ℕ) (l : List ℕ)
    → rows_affected cutoff limit l < limit
    → delete_rows cutoff limit l ≡ live_rows cutoff l
unfolding delete_rows rows_affected
delete_rows-short cutoff limit [] h = refl
delete_rows-short cutoff limit (t ∷ l) h = elim (Bool-cases (ltb t cutoff)) [
  | inl e ↦ ground (arith, delete_rows-short cutoff (limit - 1) l)
  | inr e ↦ ground (arith, delete_rows-short cutoff limit l)
]

-- What the loop leaves: no live row is lost, every row that is gone is counted, and without a failure
-- no expired row is left.
pub record IsPruned (cutoff : ℕ) (rows : List ℕ) (deleted : ℕ) (o : Outcome) : Type 0 where
  pub keeps_live : live_rows cutoff o.rows ≡ live_rows cutoff rows
  pub counts : length o.rows + o.deleted ≡ length rows + deleted
  pub finished : (o.failed ≡ true) ⊎ (o.rows ≡ live_rows cutoff rows)

-- The loop ends within one statement more than the table has rows, whatever statement fails.
pub delete_expired_rows-IsPruned :
    (fuel : ℕ) (statement_ok : ℕ → Bool) (n cutoff : ℕ) (rows : List ℕ) (deleted : ℕ)
    → length rows < fuel
    → (o : Outcome) × (delete_expired_rows fuel statement_ok n cutoff rows deleted ≡ some o)
      × IsPruned cutoff rows deleted o
unfolding delete_expired_rows
delete_expired_rows-IsPruned zero statement_ok n cutoff rows deleted h = absurd (omega (arith, h))
delete_expired_rows-IsPruned (suc fuel) statement_ok n cutoff rows deleted h =
    elim (Bool-cases (statement_ok n)) [
      | inr e ↦ (
        record { rows = rows; deleted = deleted; failed = true },
        ground arith,
        record { keeps_live = refl; counts = refl; finished = inl refl },
      )
      | inl e ↦
          elim (Bool-cases (ltb (rows_affected cutoff prune_batch_size rows) prune_batch_size)) [
            | inl s ↦ (
              record {
                rows = delete_rows cutoff prune_batch_size rows;
                deleted = deleted + rows_affected cutoff prune_batch_size rows;
                failed = false;
              },
              ground arith,
              record {
                keeps_live = delete_rows-live_rows cutoff prune_batch_size rows;
                counts = omega (arith, delete_rows-length cutoff prune_batch_size rows);
                finished = inr (delete_rows-short cutoff prune_batch_size rows (ground arith));
              },
            )
            | inr s ↦
                let (o, same, k) =
                  delete_expired_rows-IsPruned fuel statement_ok (n + 1) cutoff
                    (delete_rows cutoff prune_batch_size rows)
                    (deleted + rows_affected cutoff prune_batch_size rows)
                    (ground (arith, delete_rows-length cutoff prune_batch_size rows)) in
                let live = delete_rows-live_rows cutoff prune_batch_size rows in
                (
                  o,
                  ground arith,
                  record {
                    keeps_live = k.keeps_live ∙ live;
                    counts =
                        omega (arith, k.counts, delete_rows-length cutoff prune_batch_size rows);
                    finished = elim k.finished [ inl f ↦ inl f | inr f ↦ inr (f ∙ live) ];
                  },
                )
          ]
    ]

-- Whatever the setting holds, the number of days lies in the range that `Prune` accepts.
pub configured_days_in_range :
    (raw : Option Bytes) → (min_days ≤ configured_days raw) × (configured_days raw ≤ max_days)
unfolding configured_days days_of
configured_days_in_range none = (omega arith, omega arith)
configured_days_in_range (some raw) = elim (Option-cases (parse_int raw)) [
  | inl e ↦ (ground arith, ground arith)
  | inr (n, e) ↦ (ground arith, ground arith)
]
