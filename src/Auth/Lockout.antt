-- ===== src/Auth/Lockout.antt =====
-- Who is turned away by the throttle, and for how long.
use faro.Prelude.{
  string_eq, nat_eq, ℕ, ◌+◌, ◌≤◌, ◌<◌, ◌≡◌, ◌≢◌, ◌⊎◌, inl, inr, Option, none, some, List, [], ◌∷◌,
  map, arith, length, String, ◌==◌, Bool-cases, All, str_iff, ap, ◌∙◌, max, ◌-◌, ◌/◌,
}
use faro.Prelude.Maps.{lookup, lookup-retain, lookup-insert, length-retain-le}
use faro.Auth.Failures.{
  Throttle, Call, asks, fails, clears, max_failure_entries, max_failures, second, lockout_duration,
  is_live, prune_failures, blocked_state, blocked, record_entry, record_failure, add_failure,
  no_failures, step, run, key_of,
}
use faro.Auth.Bounds.{IsBounded, step-IsBounded}
use faro.Auth.Steps.{
  lookup-prune, HasFailed, IsLocked, blocked_live, step_other, record_failure_live,
}

pub fails-HasFailed :
    (n now expiry : ℕ) (key : String) (m : Throttle)
    → HasFailed n expiry key m
    → now < expiry
    → HasFailed (n + 1) (now + lockout_duration) key (record_failure now key m)
unfolding add_failure step
fails-HasFailed n now expiry key m f h = record {
  bounded = step-IsBounded m (now, fails key) f.bounded;
  entry = add_failure now f.entry;
  found = record_failure_live now key m f.entry f.bounded f.found (omega (arith, f.kept));
  counted = ground (arith, f.counted, f.kept);
  kept = omega arith;
}

fails-IsLocked :
    (n now expiry : ℕ) (key : String) (m : Throttle)
    → HasFailed n expiry key m
    → now < expiry
    → max_failures ≤ n + 1
    → IsLocked (now + lockout_duration) key (record_failure now key m)
unfolding add_failure fails-HasFailed
fails-IsLocked n now expiry key m f h k =
    let g = fails-HasFailed n now expiry key m f h in
    record {
      failed = record {
        bounded = g.bounded;
        entry = g.entry;
        found = g.found;
        counted = omega (arith, g.counted);
        kept = g.kept;
      };
      locked = ground (arith, f.counted, f.kept);
    }

step-IsLocked_other :
    (now until : ℕ) (key : String) (m : Throttle) (c : Call)
    → IsLocked until key m
    → now < until
    → key_of c ≢ key
    → IsLocked until key (step m (now, c))
step-IsLocked_other now until key m c l h d = record {
  failed = record {
    bounded = step-IsBounded m (now, c) l.failed.bounded;
    entry = l.failed.entry;
    found =
        step_other now key m l.failed.entry l.failed.bounded l.failed.found
          (omega (arith, l.failed.kept)) c d;
    counted = l.failed.counted;
    kept = l.failed.kept;
  };
  locked = l.locked;
}

-- A locked key is turned away, and the question leaves its entry alone.
blocked-IsLocked :
    (now until : ℕ) (key : String) (m : Throttle)
    → IsLocked until key m
    → now < until
    → (seconds : ℕ) × (blocked now key m ≡ (prune_failures now m, some seconds))
unfolding blocked_state
blocked-IsLocked now until key m l h = (
  max ((l.failed.entry.locked_until - now) / second) 1,
  blocked_live now key m l.failed.entry l.failed.bounded l.failed.found
        (omega (arith, l.failed.kept))
      ∙ ground (arith, l.locked),
)

asks-IsLocked :
    (now until : ℕ) (key : String) (m : Throttle)
    → IsLocked until key m
    → now < until
    → IsLocked until key (step m (now, asks key))
unfolding step
asks-IsLocked now until key m l h =
    let (seconds, same) = blocked-IsLocked now until key m l h in
    record {
      failed = record {
        bounded = step-IsBounded m (now, asks key) l.failed.bounded;
        entry = l.failed.entry;
        found =
            ap (λ (r : Throttle × Option ℕ). lookup key r.0.failures) same
            ∙ lookup-prune now key m l.failed.entry l.failed.bounded l.failed.found
                (omega (arith, l.failed.kept));
        counted = l.failed.counted;
        kept = l.failed.kept;
      };
      locked = l.locked;
    }

-- A lock that reaches further is also a lock up to an earlier time.
IsLocked-mono :
    (early late : ℕ) (key : String) (m : Throttle)
    → early ≤ late
    → IsLocked late key m
    → IsLocked early key m
IsLocked-mono early late key m h l = record {
  failed = record {
    bounded = l.failed.bounded;
    entry = l.failed.entry;
    found = l.failed.found;
    counted = l.failed.counted;
    kept = omega (arith, l.failed.kept);
  };
  locked = omega (arith, l.locked);
}

-- A call within the lock's window, other than a reset of the locked key itself.
abbrev pub IsWithin : ℕ → String → ℕ × Call → Type 0
IsWithin until key (now, c) = (now < until) × (until ≤ now + lockout_duration) × (c ≢ clears key)

step-IsLocked :
    (until : ℕ) (key : String) (m : Throttle) (now : ℕ) (c : Call)
    → IsLocked until key m
    → IsWithin until key (now, c)
    → (key_of c ≡ key) ⊎ (key_of c ≢ key)
    → IsLocked until key (step m (now, c))
unfolding step
step-IsLocked until key m now c l w (inr d) = step-IsLocked_other now until key m c l w.0 d
step-IsLocked until key m now (asks j) l w (inl e) = rw e (asks-IsLocked now until key m l w.0)
step-IsLocked until key m now (fails j) l w (inl e) = rw e (
    IsLocked-mono until (now + lockout_duration) key _ w.1
      (fails-IsLocked max_failures now until key m l.failed w.0 (omega arith)))
step-IsLocked until key m now (clears j) l w (inl e) = absurd (w.2 (ap clears e))

same_key : (j key : String) → (j ≡ key) ⊎ (j ≢ key)
same_key j key = elim (Bool-cases (j == key)) [
  | inl same ↦ inl ((str_iff j key).0 same)
  | inr other ↦ inr (λ e. ground (arith, str_iff j key))
]

run-IsLocked :
    (until : ℕ) (key : String) (m : Throttle) (cs : List (ℕ × Call))
    → IsLocked until key m
    → All (IsWithin until key) cs
    → IsLocked until key (run m cs)
unfolding run
run-IsLocked until key m [] l w = l
run-IsLocked until key m ((now, c) ∷ cs) l (w, ws) =
    run-IsLocked until key (step m (now, c)) cs
      (step-IsLocked until key m now c l w (same_key (key_of c) key)) ws

-- While a key is locked until a time, whatever other calls come before that time (at most
-- `lockout_duration` before it, none of them a reset of the key), each attempt at the key before
-- that time is turned away: no traffic on other keys frees it.
pub lockout_stands :
    (until : ℕ) (key : String) (m : Throttle) (cs : List (ℕ × Call)) (now : ℕ)
    → IsLocked until key m
    → All (IsWithin until key) cs
    → now < until
    → (blocked now key (run m cs)).1 ≢ none
lockout_stands until key m cs now l ws h =
    let (seconds, e) =
      blocked-IsLocked now until key (run m cs) (run-IsLocked until key m cs l ws) h in
    rw e (λ absent. cc)

-- Failures one after another, each within `lockout_duration` of the one before.
abbrev pub Spaced : ℕ → List ℕ → Type 0
Spaced t [] = Unit
Spaced t (u ∷ us) = (u < t + lockout_duration) × Spaced u us

abbrev pub last_of : ℕ → List ℕ → ℕ
last_of t [] = t
last_of t (u ∷ us) = last_of u us

abbrev pub failures_at : String → List ℕ → List (ℕ × Call)
failures_at key = map (λ t. (t, fails key))

run-HasFailed :
    (n t : ℕ) (key : String) (m : Throttle) (u : ℕ) (us : List ℕ)
    → HasFailed n (t + lockout_duration) key m
    → Spaced t (u ∷ us)
    → max_failures ≤ n + length (u ∷ us)
    → IsLocked (last_of u us + lockout_duration) key (run m (failures_at key (u ∷ us)))
unfolding run step
run-HasFailed n t key m u [] f s k = fails-IsLocked n u _ key m f s.0 (omega arith)
run-HasFailed n t key m u (v ∷ us) f s k =
    run-HasFailed (n + 1) u key (record_failure u key m) v us (fails-HasFailed n u _ key m f s.0)
      s.1 (omega arith)

record_failure_new :
    (now : ℕ) (key : String) (m : Throttle)
    → IsBounded m
    → lookup key m.failures ≡ none
    → length m.failures < max_failure_entries
    → HasFailed 1 (now + lockout_duration) key (record_failure now key m)
unfolding record_failure record_entry prune_failures step add_failure
record_failure_new now key m v e room = record {
  bounded = step-IsBounded m (now, fails key) v;
  entry = add_failure now no_failures;
  found = ground (
    arith,
    lookup-retain (is_live now) key m.failures v.unique,
    length-retain-le (is_live now) m.failures,
    lookup-insert key key (add_failure now no_failures) (prune_failures now m).failures,
    str_iff key key,
  );
  counted = ground arith;
  kept = omega arith;
}

-- Five or more failures of a new key, each within `lockout_duration` of the one before, lock the key
-- for `lockout_duration` from the last one, if the table has room when the first one comes.
pub five_failures_lock :
    (key : String) (m : Throttle) (t u : ℕ) (us : List ℕ)
    → IsBounded m
    → lookup key m.failures ≡ none
    → length m.failures < max_failure_entries
    → Spaced t (u ∷ us)
    → max_failures ≤ 1 + length (u ∷ us)
    → IsLocked (last_of u us + lockout_duration) key (run m (failures_at key (t ∷ u ∷ us)))
unfolding run step
five_failures_lock key m t u us v e room s k =
    run-HasFailed 1 t key (record_failure t key m) u us (record_failure_new t key m v e room) s k
