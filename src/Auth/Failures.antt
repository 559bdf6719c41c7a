-- ===== src/Auth/Failures.antt =====
-- The failure table of the login throttle. A time is a number of nanoseconds since Go's zero time, so
-- that 0 is the zero time; each call is given the value that `manager.now()` returns in it. The
-- mutex makes each call one step.
use faro.Prelude.{
  string_eq, nat_eq, ℕ, ◌+◌, ◌-◌, ◌/◌, max, Bool, ◌&&◌, List, [], ◌∷◌, Option, none, some, String,
  ltb, leb, if◌then◌else◌, ◌==◌, length,
}
use faro.Prelude.Maps.{lookup, insert, delete, retain}

abbrev pub second : ℕ
second = 1000000000

abbrev pub minute : ℕ
minute = 60000000000

abbrev pub max_failures : ℕ
max_failures = 5

abbrev pub lockout_duration : ℕ
lockout_duration = 300000000000

abbrev pub max_failure_entries : ℕ
max_failure_entries = 4096

pub record FailureState : Type 0 where
  pub count : ℕ
  pub locked_until : ℕ
  pub expires_at : ℕ

pub record Throttle : Type 0 where
  pub failures : List (String × FailureState)
  pub next_failure_prune : ℕ

abbrev pub no_failures : FailureState
no_failures = record { count = 0; locked_until = 0; expires_at = 0 }

abbrev pub new_throttle : Throttle
new_throttle = record { failures = []; next_failure_prune = 0 }

abbrev pub is_live : ℕ → FailureState → Bool
is_live now s = ltb now s.expires_at

unfoldable pub prune_failures : ℕ → Throttle → Throttle
prune_failures now m =
    if ltb now m.next_failure_prune && ltb (length m.failures) max_failure_entries
    then m
    else record m { failures = retain (is_live now) m.failures; next_failure_prune = now + minute }

-- The first lookup of `blocked`: an entry past its time is deleted and counts as absent.
unfoldable pub expire_entry : ℕ → String → Throttle → Throttle × Option FailureState
expire_entry now key m = elim (lookup key m.failures) [
  | none ↦ (m, none)
  | some s ↦
      if is_live now s then (m, some s) else (record m { failures = delete key m.failures }, none)
]

-- The loop over a full table: the least time that is left, from `lockoutDuration` down.
unfoldable pub least_remaining : ℕ → ℕ → List (String × FailureState) → ℕ
least_remaining now retry [] = retry
least_remaining now retry ((k, s) ∷ m) =
    least_remaining now (if ltb (s.expires_at - now) retry then s.expires_at - now else retry) m

-- What `blocked` answers: `some seconds` for a blocked attempt, with its Retry-After.
unfoldable pub blocked_state : ℕ → String → Throttle → Option FailureState → Throttle × Option ℕ
unfolding least_remaining
blocked_state now key m none =
    if leb max_failure_entries (length m.failures)
    then (m, some (max 1 (least_remaining now lockout_duration m.failures / second + 1)))
    else (m, none)
blocked_state now key m (some s) =
    if ltb now s.locked_until
    then (m, some (max ((s.locked_until - now) / second) 1))
    else if s.locked_until == 0
    then (m, none)
    else (record m { failures = delete key m.failures }, none)

unfoldable pub blocked : ℕ → String → Throttle → Throttle × Option ℕ
unfolding prune_failures expire_entry blocked_state
blocked now key m =
    let (p, found) = expire_entry now key (prune_failures now m) in blocked_state now key p found

-- The entry after one more failure.
unfoldable pub add_failure : ℕ → FailureState → FailureState
add_failure now s =
    let t = if ltb now s.expires_at then s else no_failures in
    record {
      count = t.count + 1;
      locked_until =
          if leb max_failures (t.count + 1) then now + lockout_duration else t.locked_until;
      expires_at = now + lockout_duration;
    }

unfoldable pub record_entry : ℕ → String → Throttle → Option FailureState → Throttle
unfolding add_failure
record_entry now key m none =
    if leb max_failure_entries (length m.failures)
    then m
    else record m { failures = insert key (add_failure now no_failures) m.failures }
record_entry now key m (some s) = record m { failures = insert key (add_failure now s) m.failures }

unfoldable pub record_failure : ℕ → String → Throttle → Throttle
unfolding prune_failures record_entry
record_failure now key m =
    let p = prune_failures now m in record_entry now key p (lookup key p.failures)

unfoldable pub clear_failures : String → Throttle → Throttle
clear_failures key m = record m { failures = delete key m.failures }

-- The three calls, each with its key and time.
pub data Call : Type 0 where
  asks fails clears : String → Call

abbrev pub key_of : Call → String
key_of (asks key) = key
key_of (fails key) = key
key_of (clears key) = key

unfoldable pub step : Throttle → ℕ × Call → Throttle
step m (now, asks key) = (blocked now key m).0
step m (now, fails key) = record_failure now key m
step m (now, clears key) = clear_failures key m

unfoldable pub run : Throttle → List (ℕ × Call) → Throttle
run m [] = m
run m (c ∷ cs) = run (step m c) cs
