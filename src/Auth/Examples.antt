-- ===== src/Auth/Examples.antt =====
-- Concrete runs of the throttle of internal/auth/manager.go.
use faro.Prelude.{
  string_eq, str_iff, ap, ℕ, ◌≡◌, refl, ◌≢◌, ◌↔◌, ◌⊎◌, List, [], ◌∷◌, none, some, arith,
}
use faro.Prelude.Maps.{lookup, keep_if}
use faro.Auth.Failures.{
  Throttle, asks, fails, clears, is_live, new_throttle, blocked, run, step, record_failure, key_of,
}
use faro.Auth.Bounds.{IsBounded, run-new-IsBounded}
use faro.Auth.Steps.{IsLocked}
use faro.Auth.Lockout.{failures_at, lockout_stands, five_failures_lock}
use faro.Auth.Blocked.{HasLock, IsFull, blocked_iff}

abbrev burst : List ℕ
burst = 1000000000 ∷ 2000000000 ∷ 3000000000 ∷ 4000000000 ∷ 5000000000 ∷ []

-- Five failures of one key within four seconds.
abbrev attacked : Throttle
attacked = run new_throttle (failures_at "mallory" burst)

new-IsBounded : IsBounded new_throttle
new-IsBounded = record { unique = tt; bounded = omega arith }

locked_out : (blocked 6000000000 "mallory" attacked).1 ≡ some 299
unfolding run step blocked record_failure
locked_out = refl

free_again : (blocked 305000000000 "mallory" attacked).1 ≡ none
unfolding run step blocked record_failure
free_again = refl

others_pass : (blocked 6000000000 "alice" attacked).1 ≡ none
unfolding run step blocked record_failure
others_pass = refl

run-new-IsBounded_example : IsBounded attacked
run-new-IsBounded_example = run-new-IsBounded (failures_at "mallory" burst)

five_failures_lock_example : IsLocked 305000000000 "mallory" attacked
five_failures_lock_example =
    five_failures_lock "mallory" new_throttle 1000000000 2000000000
      (3000000000 ∷ 4000000000 ∷ 5000000000 ∷ []) new-IsBounded refl (omega arith) (omega arith)
      (omega arith)

-- Between the failures and the attempt, another key fails and is reset.
lockout_stands_example :
    (blocked 9000000000 "mallory" (
      run attacked (
        (6000000000, asks "mallory")
        ∷ (7000000000, fails "bob")
        ∷ (8000000000, clears "bob")
        ∷ []))).1
    ≢ none
lockout_stands_example =
    lockout_stands 305000000000 "mallory" attacked
      ((6000000000, asks "mallory") ∷ (7000000000, fails "bob") ∷ (8000000000, clears "bob") ∷ [])
      9000000000 five_failures_lock_example
      (
        (omega arith, omega arith, λ e. ground arith),
        (
          (omega arith, omega arith, λ e. ground arith),
          ((omega arith, omega arith, not_mallory), tt),
        ),
      )
      (omega arith)
  where
    not_mallory : clears "bob" ≢ clears "mallory"
    not_mallory e = ground (arith, str_iff "bob" "mallory", ap key_of e)

blocked_iff_example : ((blocked 6000000000 "mallory" attacked).1 ≢ none) ↔ (
    HasLock 6000000000 "mallory" attacked
    ⊎ ((keep_if (is_live 6000000000) (lookup "mallory" attacked.failures) ≡ none)
        × IsFull 6000000000 attacked))
blocked_iff_example =
    blocked_iff 6000000000 "mallory" attacked (run-new-IsBounded (failures_at "mallory" burst))
