-- ===== src/Retention/Examples.antt =====
-- Concrete tables.
use faro.Prelude.{ℕ, ◌≡◌, arith, true, List, [], ◌∷◌, some}
use faro.Retention.{Outcome, delete_expired_rows}
use faro.Retention.Batches.{IsPruned, delete_expired_rows-IsPruned}

abbrev table0 : List ℕ
table0 = 5 ∷ 20 ∷ 7 ∷ []

delete_expired_rows-IsPruned_example :
    (o : Outcome) × (delete_expired_rows 4 (λ n. true) 0 10 table0 0 ≡ some o)
    × IsPruned 10 table0 0 o
delete_expired_rows-IsPruned_example =
    delete_expired_rows-IsPruned 4 (λ n. true) 0 10 table0 0 (omega arith)
