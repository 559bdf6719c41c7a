-- ===== src/Auth/Blocked.antt =====
-- internal/auth/manager.go: when `blocked` turns an attempt away.
use faro.Prelude.{
  string_eq, nat_eq, ℕ, ◌≤◌, ◌<◌, ◌≡◌, refl, ◌≢◌, ◌↔◌, ◌⊎◌, inl, inr, Option, none, some, arith,
  length, String, Bool-cases, ltb→lt, ap, sym, refl, ◌∙◌,
}
use faro.Prelude.Maps.{lookup, retain, keep_if, lookup-retain, length-delete-le, length-retain-le}
use faro.Auth.Failures.{
  Throttle, FailureState, max_failure_entries, is_live, prune_failures, expire_entry, blocked_state,
  blocked,
}
use faro.Auth.Bounds.{IsBounded}
use faro.Auth.Steps.{blocked_live}

-- Full of entries that are live at `now`.
abbrev pub IsFull : ℕ → Throttle → Type 0
IsFull now m = max_failure_entries ≤ length (retain (is_live now) m.failures)

-- The key has a live entry whose lock has not passed.
abbrev pub HasLock : ℕ → String → Throttle → Type 0
HasLock now key m =
    (s : FailureState) × (lookup key m.failures ≡ some s)
    × (now < s.expires_at)
    × (now < s.locked_until)

-- With no live entry for the key, what `blocked` looks at next is "no entry", in a table that is at
-- its limit exactly when the live entries are.
pub expire_entry_dead :
    (now : ℕ) (key : String) (m : Throttle)
    → IsBounded m
    → keep_if (is_live now) (lookup key m.failures) ≡ none
    → let r = expire_entry now key (prune_failures now m) in
      (r.1 ≡ none) × ((max_failure_entries ≤ length r.0.failures) ↔ IsFull now m)
unfolding prune_failures expire_entry
expire_entry_dead now key m v e = ground (
  arith,
  lookup-retain (is_live now) key m.failures v.unique,
  length-retain-le (is_live now) m.failures,
  length-delete-le key m.failures,
)

pub blocked_state-none :
    (now : ℕ) (key : String) (m : Throttle) (o : Option FailureState)
    → o ≡ none
    → ((blocked_state now key m o).1 ≢ none) ↔ (max_failure_entries ≤ length m.failures)
unfolding blocked_state
blocked_state-none now key m o e = ground arith

pub blocked_state-some :
    (now : ℕ) (key : String) (m : Throttle) (s : FailureState)
    → ((blocked_state now key m (some s)).1 ≢ none) ↔ (now < s.locked_until)
unfolding blocked_state
blocked_state-some now key m s = ground arith

pub blocked_dead :
    (now : ℕ) (key : String) (m : Throttle)
    → IsBounded m
    → keep_if (is_live now) (lookup key m.failures) ≡ none
    → ((blocked now key m).1 ≢ none) ↔ IsFull now m
unfolding blocked
blocked_dead now key m v e =
    let (gone, full) = expire_entry_dead now key m v e in
    let (q, found) = expire_entry now key (prune_failures now m) in
    let (to, from) = blocked_state-none now key q found gone in
    (λ b. full.0 (to b), λ f. from (full.1 f))

pub live_cases :
    (now : ℕ) (o : Option FailureState)
    → (keep_if (is_live now) o ≡ none) ⊎ ((s : FailureState) × (o ≡ some s) × (now < s.expires_at))
live_cases now none = inl refl
live_cases now (some s) = elim (Bool-cases (is_live now s)) [
  | inl live ↦ inr (s, refl, ltb→lt _ _ live)
  | inr dead ↦ inl (rw dead)
]

-- An attempt is turned away exactly when its key is locked, or when the key has no live entry and the
-- table is full of live entries.
pub blocked_iff :
    (now : ℕ) (key : String) (m : Throttle)
    → IsBounded m
    → ((blocked now key m).1 ≢ none) ↔ (
        HasLock now key m ⊎ ((keep_if (is_live now) (lookup key m.failures) ≡ none) × IsFull now m))
blocked_iff now key m v = elim (live_cases now (lookup key m.failures)) [
  | inl dead ↦
      let (to, from) = blocked_dead now key m v dead in
      (
        λ b. inr (dead, to b),
        elim [ inl (s, e, live, _) ↦ absurd (ground (arith, e, dead)) | inr (_, full) ↦ from full ],
      )
  | inr (s, e, live) ↦
      let (to, from) = blocked_state-some now key (prune_failures now m) s in
      let same = ap (λ (r : Throttle × Option ℕ). r.1) (blocked_live now key m s v e live) in
      (
        λ b. inl (s, e, live, to (λ k. b (same ∙ k))),
        elim [
          | inl (t, e', _, h) ↦ λ k. from (ground arith) (sym same ∙ k)
          | inr (dead, _) ↦ absurd (ground (arith, e, dead))
        ],
      )
]
