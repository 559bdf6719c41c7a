-- ===== src/Auth/Bounds.antt =====
-- The failure table holds a key once and never outgrows its limit.
use faro.Prelude.{
  string_eq, nat_eq, ℕ, ◌≤◌, ◌≡◌, refl, Option, none, some, List, [], ◌∷◌, arith, length, String,
}
use faro.Prelude.Maps.{
  lookup, HasUniqueKeys, delete-HasUniqueKeys, insert-HasUniqueKeys, retain-HasUniqueKeys,
  length-delete-le, length-delete-lt, length-retain-le,
}
use faro.Auth.Failures.{
  Throttle, FailureState, Call, asks, fails, clears, max_failure_entries, is_live, prune_failures,
  expire_entry, blocked_state, blocked, record_entry, record_failure, clear_failures, add_failure,
  no_failures, new_throttle, step, run,
}

pub record IsBounded (m : Throttle) : Type 0 where
  pub unique : HasUniqueKeys m.failures
  pub bounded : length m.failures ≤ max_failure_entries

delete-IsBounded : (key : String) (m : Throttle) → IsBounded m → IsBounded (clear_failures key m)
unfolding clear_failures
delete-IsBounded key m v = record {
  unique = delete-HasUniqueKeys key m.failures v.unique;
  bounded = omega (arith, length-delete-le key m.failures, v.bounded);
}

pub prune-IsBounded : (now : ℕ) (m : Throttle) → IsBounded m → IsBounded (prune_failures now m)
unfolding prune_failures
prune-IsBounded now m v = ground (
  arith,
  retain-HasUniqueKeys (is_live now) m.failures v.unique,
  length-retain-le (is_live now) m.failures,
)

pub expire-IsBounded :
    (now : ℕ) (key : String) (m : Throttle) → IsBounded m → IsBounded (expire_entry now key m).0
unfolding expire_entry clear_failures
expire-IsBounded now key m v = ground (arith, delete-IsBounded key m v)

blocked_state-IsBounded :
    (now : ℕ) (key : String) (m : Throttle) (o : Option FailureState)
    → IsBounded m
    → IsBounded (blocked_state now key m o).0
unfolding blocked_state clear_failures
blocked_state-IsBounded now key m none v = ground arith
blocked_state-IsBounded now key m (some s) v = ground (arith, delete-IsBounded key m v)

pub blocked-IsBounded :
    (now : ℕ) (key : String) (m : Throttle) → IsBounded m → IsBounded (blocked now key m).0
unfolding blocked
blocked-IsBounded now key m v =
    let p = prune_failures now m in
    let (q, found) = expire_entry now key p in
    blocked_state-IsBounded now key q found (expire-IsBounded now key p (prune-IsBounded now m v))

record_entry-IsBounded :
    (now : ℕ) (key : String) (m : Throttle) (o : Option FailureState)
    → lookup key m.failures ≡ o
    → IsBounded m
    → IsBounded (record_entry now key m o)
unfolding record_entry
record_entry-IsBounded now key m none e v = ground (
  arith,
  insert-HasUniqueKeys key (add_failure now no_failures) m.failures v.unique,
  length-delete-le key m.failures,
)
record_entry-IsBounded now key m (some s) e v = record {
  unique = insert-HasUniqueKeys key (add_failure now s) m.failures v.unique;
  bounded = omega (arith, length-delete-lt key s m.failures e, v.bounded);
}

pub record_failure-IsBounded :
    (now : ℕ) (key : String) (m : Throttle) → IsBounded m → IsBounded (record_failure now key m)
unfolding record_failure
record_failure-IsBounded now key m v =
    record_entry-IsBounded now key (prune_failures now m) _ refl (prune-IsBounded now m v)

pub step-IsBounded : (m : Throttle) (c : ℕ × Call) → IsBounded m → IsBounded (step m c)
unfolding step
step-IsBounded m (now, asks key) v = blocked-IsBounded now key m v
step-IsBounded m (now, fails key) v = record_failure-IsBounded now key m v
step-IsBounded m (now, clears key) v = delete-IsBounded key m v

pub run-IsBounded : (m : Throttle) (cs : List (ℕ × Call)) → IsBounded m → IsBounded (run m cs)
unfolding run
run-IsBounded m [] v = v
run-IsBounded m (c ∷ cs) v = run-IsBounded (step m c) cs (step-IsBounded m c v)

-- From an empty table, after any calls at any times and on any keys, the table holds each key once
-- and at most `max_failure_entries` keys.
pub run-new-IsBounded : (cs : List (ℕ × Call)) → IsBounded (run new_throttle cs)
run-new-IsBounded cs = run-IsBounded new_throttle cs (record { unique = tt; bounded = omega arith })
