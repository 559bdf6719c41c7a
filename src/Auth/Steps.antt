-- ===== src/Auth/Steps.antt =====
-- internal/auth/manager.go: what one step of the login throttle does to the entry of a key.
use faro.Prelude.{
  string_eq, nat_eq, ℕ, ◌≤◌, ◌<◌, ◌≡◌, ◌≢◌, ◌⊎◌, Option, none, some, arith, String, str_iff, ◌∙◌,
}
use faro.Prelude.Maps.{lookup, keep_if, lookup-retain, lookup-delete, lookup-insert}
use faro.Auth.Failures.{
  Throttle, FailureState, Call, asks, fails, clears, max_failures, is_live, prune_failures,
  expire_entry, blocked_state, blocked, record_entry, record_failure, clear_failures, add_failure,
  no_failures, step, key_of,
}
use faro.Auth.Bounds.{IsBounded}

-- Cleaning keeps an entry that is still live.
pub lookup-prune :
    (now : ℕ) (key : String) (m : Throttle) (s : FailureState)
    → IsBounded m
    → lookup key m.failures ≡ some s
    → now < s.expires_at
    → lookup key (prune_failures now m).failures ≡ some s
unfolding prune_failures
lookup-prune now key m s v e h = ground (arith, lookup-retain (is_live now) key m.failures v.unique)

-- What an entry looks like after cleaning at `now`: the same, or gone because it had expired.
pub lookup-prune_cases :
    (now : ℕ) (key : String) (m : Throttle)
    → IsBounded m
    → (lookup key (prune_failures now m).failures ≡ lookup key m.failures)
      ⊎ ((lookup key (prune_failures now m).failures ≡ none)
          × (keep_if (is_live now) (lookup key m.failures) ≡ none))
unfolding prune_failures
lookup-prune_cases now key m v = ground (arith, lookup-retain (is_live now) key m.failures v.unique)

-- A key with `n` failures or more, the last of which keeps its entry until `expiry`.
pub record HasFailed (n expiry : ℕ) (key : String) (m : Throttle) : Type 0 where
  pub bounded : IsBounded m
  pub entry : FailureState
  pub found : lookup key m.failures ≡ some entry
  pub counted : n ≤ entry.count
  pub kept : expiry ≤ entry.expires_at

-- A key locked until `until`.
pub record IsLocked (until : ℕ) (key : String) (m : Throttle) : Type 0 where
  pub failed : HasFailed max_failures until key m
  pub locked : until ≤ failed.entry.locked_until

-- The answer of `blocked` in terms of the entry, for a table that has been cleaned.
pub expire_entry_live :
    (now : ℕ) (key : String) (m : Throttle) (s : FailureState)
    → lookup key m.failures ≡ some s
    → now < s.expires_at
    → expire_entry now key m ≡ (m, some s)
unfolding expire_entry
expire_entry_live now key m s e h = ground arith

pub blocked_live :
    (now : ℕ) (key : String) (m : Throttle) (s : FailureState)
    → IsBounded m
    → lookup key m.failures ≡ some s
    → now < s.expires_at
    → blocked now key m ≡ blocked_state now key (prune_failures now m) (some s)
unfolding blocked
blocked_live now key m s v e h =
    rw (expire_entry_live now key (prune_failures now m) s (lookup-prune now key m s v e h) h)

pub expire_entry_other :
    (now : ℕ) (j key : String) (m : Throttle)
    → j ≢ key
    → lookup key (expire_entry now j m).0.failures ≡ lookup key m.failures
unfolding expire_entry
expire_entry_other now j key m d = ground (arith, lookup-delete j key m.failures, str_iff j key)

pub blocked_state_other :
    (now : ℕ) (j key : String) (m : Throttle) (o : Option FailureState)
    → j ≢ key
    → lookup key (blocked_state now j m o).0.failures ≡ lookup key m.failures
unfolding blocked_state
blocked_state_other now j key m none d = ground arith
blocked_state_other now j key m (some s) d =
    ground (arith, lookup-delete j key m.failures, str_iff j key)

pub blocked_other :
    (now : ℕ) (j key : String) (m : Throttle)
    → j ≢ key
    → lookup key (blocked now j m).0.failures ≡ lookup key (prune_failures now m).failures
unfolding blocked
blocked_other now j key m d =
    let p = prune_failures now m in
    let (q, found) = expire_entry now j p in
    blocked_state_other now j key q found d ∙ expire_entry_other now j key p d

pub record_entry_other :
    (now : ℕ) (j key : String) (m : Throttle) (o : Option FailureState)
    → j ≢ key
    → lookup key (record_entry now j m o).failures ≡ lookup key m.failures
unfolding record_entry
record_entry_other now j key m none d =
    ground (arith, lookup-insert j key (add_failure now no_failures) m.failures, str_iff j key)
record_entry_other now j key m (some s) d =
    ground (arith, lookup-insert j key (add_failure now s) m.failures, str_iff j key)

-- Calls on other keys leave a live entry as it is.
pub step_other :
    (now : ℕ) (key : String) (m : Throttle) (s : FailureState)
    → IsBounded m
    → lookup key m.failures ≡ some s
    → now < s.expires_at
    → (c : Call) → key_of c ≢ key
    → lookup key (step m (now, c)).failures ≡ some s
unfolding step record_failure clear_failures
step_other now key m s v e h (asks j) d =
    blocked_other now j key m d ∙ lookup-prune now key m s v e h
step_other now key m s v e h (fails j) d =
    record_entry_other now j key (prune_failures now m) _ d ∙ lookup-prune now key m s v e h
step_other now key m s v e h (clears j) d =
    ground (arith, lookup-delete j key m.failures, str_iff j key)

pub record_entry_self :
    (now : ℕ) (key : String) (m : Throttle) (s : FailureState)
    → lookup key (record_entry now key m (some s)).failures ≡ some (add_failure now s)
unfolding record_entry
record_entry_self now key m s =
    ground (arith, lookup-insert key key (add_failure now s) m.failures, str_iff key key)

pub record_failure_live :
    (now : ℕ) (key : String) (m : Throttle) (s : FailureState)
    → IsBounded m
    → lookup key m.failures ≡ some s
    → now < s.expires_at
    → lookup key (record_failure now key m).failures ≡ some (add_failure now s)
unfolding record_failure
record_failure_live now key m s v e h =
    rw (lookup-prune now key m s v e h) (record_entry_self now key (prune_failures now m) s)

-- A failed attempt at a key adds one to its count, and locks it from the fifth on.
