-- ===== src/Coredns/Apply.antt =====
-- internal/coredns/coredns.go: `Apply` and `applyFilesLocked`. `applyMu` makes each
-- call one step. The DNS engine, the Caddyfile parser, the operating system and the transport hooks
-- are parameters; a hook that is nil is the one that does nothing. `AfterApply` only notifies.
use faro.Prelude.{
  ℕ, ◌+◌, ◌%◌, ◌^◌, ◌≡◌, Bool, true, false, not, ◌&&◌, ◌||◌, List, [], ◌++◌, Option, none, some,
  if◌then◌else◌, ◌==◌, Result, ok, err, ◌>>=◌, ◌>>◌, guard,
}
use faro.Strings.{Bytes, bytes_eq}
use faro.Coredns.Errors.{
  ApplyError, mkdir_failed, engine_rejected, engine_unreachable, hash_failed, prepare_failed,
  reload_timeout, commit_failed, restored, restored_without_hash, rollback_unverified,
  transport_not_restored,
}
use faro.Coredns.Corefile.{Files, corefile_name, file_content, validate_generated_files}
use faro.Coredns.Files.{
  Dir, Disk, file_names, snapshot_files, stale_managed_files, replace_with_rollback, rollback,
}

-- The answer of `readLiveHash`: a hash, `errReloadHashUnavailable`, or another error.
pub data LiveHash : Type 0 where
  running : Bytes → LiveHash
  unavailable unreachable : LiveHash

-- What the call meets: `wait_for_hash d h` says whether the engine reports `h` in time when the
-- directory holds `d`; `corefile_hash` fails where the Caddyfile parser does.
pub record World : Type 0 where
  pub disk : Disk
  pub mkdir_ok : Bool
  pub engine_accepts : Files → Bool
  pub live : LiveHash
  pub corefile_hash : Bytes → Option Bytes
  pub wait_for_hash : Dir → Bytes → Bool

-- The transport hooks. A hook that fails changes nothing, and a rollback undoes the last preparation.
pub record Transport (L : Type 0) : Type 1 where
  pub State : Type 0
  pub live : State → L
  pub before_apply : State → Option State
  pub rollback_apply : State → Option State
  pub commit_apply : State → Option State
  pub rollback_restores :
      (t u : State)
      → before_apply t ≡ some u
      → (v : State) × (rollback_apply u ≡ some v) × (live v ≡ live t)

-- The part of the failure path that is computed before anything is written.
pub record Plan : Type 0 where
  pub previous_hash : Bytes
  pub stale : List Bytes
  pub backups : Files
  pub touched : List Bytes
  pub expected : Bytes
  pub must_wait : Bool

abbrev pub hash_or_empty : LiveHash → Bytes
hash_or_empty (running h) = h
hash_or_empty _ = []

abbrev pub is_running : LiveHash → Bool
is_running (running h) = true
is_running _ = false

abbrev pub is_unavailable : LiveHash → Bool
is_unavailable unavailable = true
is_unavailable _ = false

abbrev pub or_fail : Option Bytes → Result ApplyError Bytes
or_fail none = err hash_failed
or_fail (some h) = ok h

-- `previousFileHashErr != nil || previousFileHash != expectedHash`.
abbrev pub differs : Option Bytes → Bytes → Bool
differs none expected = true
differs (some h) expected = not (h == expected)

unfoldable pub make_plan : World → Bool → Dir → Files → Result ApplyError Plan
make_plan w bootstrapped d files = do
  guard w.mkdir_ok mkdir_failed
  validate_generated_files files
  guard (w.engine_accepts files) engine_rejected
  guard (not (bootstrapped && not (is_running w.live) && not (is_unavailable w.live)))
      engine_unreachable
  stale ← stale_managed_files w.disk d files
  backups ← snapshot_files d (file_names files ++ stale)
  expected ← or_fail (w.corefile_hash (file_content corefile_name files))
  let changed = differs (w.corefile_hash (file_content corefile_name backups)) expected
  ok (record {
    previous_hash = hash_or_empty w.live;
    stale = stale;
    backups = backups;
    touched = file_names files ++ stale;
    expected = expected;
    must_wait = is_running w.live || (bootstrapped && is_unavailable w.live && changed);
  })

-- `handleReloadFailure`.
unfoldable pub reload_error : World → Dir → Bytes → ApplyError → ApplyError
reload_error w d previous cause =
    if previous == []
    then restored_without_hash cause
    else if w.wait_for_hash d previous
    then restored cause
    else rollback_unverified cause

module _ {L : Type 0} (t : Transport L) where
  pub record State : Type 0 where
    pub dir : Dir
    pub bootstrapped : Bool
    pub reload_total : ℕ  -- uint64
    pub reload_failed_total : ℕ  -- uint64
    pub transport : t.State

  -- The result of `applyFilesLocked`, with the `prepared` flag of its caller.
  pub record Outcome : Type 0 where
    pub state : State
    pub prepared : Bool
    pub error : Option ApplyError

  abbrev pub bump : ℕ → ℕ
  bump n = (n + 1) % 2 ^ 64

  unfoldable pub fail : State → Bool → ApplyError → Outcome
  fail s prepared e = record {
    state = record s { reload_failed_total = bump s.reload_failed_total };
    prepared = prepared;
    error = some e;
  }

  unfoldable pub reload_failed : World → Plan → State → ApplyError → Outcome
  unfolding fail reload_error
  reload_failed w p s cause =
      let d = rollback w.disk p.backups p.touched s.dir in
      fail (record s { dir = d }) true (reload_error w d p.previous_hash cause)

  unfoldable pub commit_stage : World → Plan → State → Option t.State → Outcome
  unfolding reload_failed
  commit_stage w p s none = reload_failed w p s commit_failed
  commit_stage w p s (some u) = record {
    state = record s { bootstrapped = true; transport = u };
    prepared = true;
    error = none;
  }

  unfoldable pub wait_stage : World → Plan → State → Outcome
  unfolding reload_failed commit_stage
  wait_stage w p s =
      if p.must_wait && not (w.wait_for_hash s.dir p.expected)
      then reload_failed w p s reload_timeout
      else commit_stage w p s (t.commit_apply s.transport)

  unfoldable pub replace_stage : World → Plan → State → Dir × Option ApplyError → Outcome
  unfolding fail wait_stage
  replace_stage w p s (d, some e) = fail (record s { dir = d }) true e
  replace_stage w p s (d, none) = wait_stage w p (record s { dir = d })

  unfoldable pub prepare_stage : World → Files → Plan → State → Option t.State → Outcome
  unfolding fail replace_stage
  prepare_stage w files p s none = fail s false prepare_failed
  prepare_stage w files p s (some u) =
      replace_stage w p (record s { transport = u })
        (replace_with_rollback w.disk files p.stale p.backups p.touched s.dir)

  unfoldable pub with_plan : World → Files → State → Result ApplyError Plan → Outcome
  unfolding fail prepare_stage
  with_plan w files s (err e) = fail s false e
  with_plan w files s (ok p) = prepare_stage w files p s (t.before_apply s.transport)

  unfoldable pub apply_files_locked : World → Files → State → Outcome
  unfolding with_plan
  apply_files_locked w files s = with_plan w files s (make_plan w s.bootstrapped s.dir files)

  -- The failure path of `Apply`: the transport is rolled back if it was prepared.
  unfoldable pub transport_restored :
      State → ApplyError → Option t.State → State × Option ApplyError
  transport_restored s e none = (s, some (transport_not_restored e))
  transport_restored s e (some u) = (record s { transport = u }, some e)

  unfoldable pub finish_error : State → Bool → ApplyError → State × Option ApplyError
  unfolding transport_restored
  finish_error s prepared e =
      if prepared then transport_restored s e (t.rollback_apply s.transport) else (s, some e)

  unfoldable pub finish : State → Bool → Option ApplyError → State × Option ApplyError
  unfolding finish_error
  finish s prepared none = (s, none)
  finish s prepared (some e) = finish_error s prepared e

  abbrev pub count_reload : State → State
  count_reload s = record s { reload_total = bump s.reload_total }

  abbrev pub count_failure : State → State
  count_failure s = record s { reload_failed_total = bump s.reload_failed_total }

  -- `Apply`, given what `render` and `runtimeFilesFromRenderedState` return.
  unfoldable pub apply : World → Result ApplyError Files → State → State × Option ApplyError
  unfolding apply_files_locked finish
  apply w (err e) s = (count_failure (count_reload s), some e)
  apply w (ok files) s =
      let o = apply_files_locked w files (count_reload s) in finish o.state o.prepared o.error
