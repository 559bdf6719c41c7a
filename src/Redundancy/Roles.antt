-- ===== src/Redundancy/Roles.antt =====
-- internal/redundancy/manager.go: snapshots of the controller, and leaving. A statement or a
-- transaction of the database is one step that happens or fails as a whole; `Steps` says which ones
-- succeed.
use faro.Prelude.{
  ◌||◌, nat_eq, ℕ, ◌+◌, Bool, not, ◌&&◌, List, [], ◌∷◌, Option, none, some, if◌then◌else◌, ◌==◌,
  Result, ok, err,
}
use faro.Strings.{Bytes, bytes_eq}
use faro.Redundancy.Types.{
  standalone, controller, is_standalone, is_controller, is_replica, LocalState, ConfigSnapshot,
  snapshot_schema_version, Manager, RedundancyError, database_error, snapshot_unavailable,
  role_changed, revision_changed, not_member, applier_missing, apply_failed, restore_failed,
  status_unread, to_seconds,
}

-- What a call meets outside the manager: the database steps, the generated configuration that
-- `buildSnapshot` reads (`none` if it cannot be read or does not fit), and the time.
pub record Steps : Type 0 where
  pub read_ok : Bool
  pub reread_ok : Bool
  pub write_ok : Bool
  pub rename_ok : Bool
  pub generated : Option (List (Bytes × Bytes) × List (Bytes × Bytes))
  pub now : ℕ

abbrev pub Outcome : Type 0 → Type 0
Outcome A = Manager × Result RedundancyError A

unfoldable pub snapshot_of :
    ℕ
    → LocalState
    → ℕ
    → Option (List (Bytes × Bytes) × List (Bytes × Bytes))
    → Option ConfigSnapshot
snapshot_of now state revision none = none
snapshot_of now state revision (some (runtime, files)) = some (record {
  schema_version = snapshot_schema_version;
  home_id = state.home_id;
  revision = revision;
  created_at = to_seconds now;
  runtime_settings = runtime;
  files = files;
})

unfoldable pub build_snapshot : Steps → LocalState → ℕ → Option ConfigSnapshot
unfolding snapshot_of
build_snapshot io state revision = snapshot_of io.now state revision io.generated

-- The transaction of `initializeController`.
unfoldable pub commit_controller :
    Steps → Bytes → Bytes → Manager → Option ConfigSnapshot → Outcome (Unit {0})
commit_controller io home name m none = (m, err snapshot_unavailable)
commit_controller io home name m (some payload) =
    if not (is_standalone m.state.role)
    then (m, err role_changed)
    else if io.write_ok
    then (
      record m {
        state = record (m.state) {
          role = controller;
          home_id = home;
          node_name = name;
          config_revision = 1;
          last_error = [];
        };
        snapshots = (1, payload) ∷ [];
      },
      ok tt,
    )
    else (m, err database_error)

unfoldable pub initialize_controller :
    Steps → LocalState → Bytes → Bytes → Manager → Outcome (Unit {0})
unfolding build_snapshot commit_controller
initialize_controller io state home name m = commit_controller io home name m (
    build_snapshot io
      (record state { role = controller; home_id = home; node_name = name; config_revision = 0 }) 1)

-- The transaction of `captureSnapshot`; the update names the revision that was read.
unfoldable pub commit_snapshot :
    Steps → LocalState → Manager → Option ConfigSnapshot → Outcome (Unit {0})
commit_snapshot io state m none = (m, err snapshot_unavailable)
commit_snapshot io state m (some payload) =
    if not (is_controller m.state.role && m.state.config_revision == state.config_revision)
    then (m, err revision_changed)
    else if io.write_ok
    then (
      record m {
        state = record (m.state) { config_revision = state.config_revision + 1; last_error = [] };
        snapshots = (state.config_revision + 1, payload) ∷ [];
      },
      ok tt,
    )
    else (m, err database_error)

unfoldable pub capture_snapshot : Steps → LocalState → Manager → Outcome (Unit {0})
unfolding build_snapshot commit_snapshot
capture_snapshot io state m =
    commit_snapshot io state m (build_snapshot io state (state.config_revision + 1))

-- `ConfigurationApplied`: errors are logged.
unfoldable pub configuration_applied : Steps → Manager → Manager
unfolding capture_snapshot
configuration_applied io m =
    if not io.read_ok || not (is_controller m.state.role)
    then m
    else (capture_snapshot io m.state m).0

-- `setStandalone`.
unfoldable pub standalone_row : LocalState → LocalState
standalone_row s = record s {
  role = standalone;
  home_id = [];
  controller_url = [];
  secret_ciphertext = [];
  config_revision = 0;
  last_sync_at = none;
  last_error = [];
}

unfoldable pub set_standalone : Manager → Manager
unfolding standalone_row
set_standalone m = record m { state = standalone_row m.state; nodes = []; snapshots = [] }

-- What `Leave` meets: whether the applier is there, whether `Apply` succeeds, whether the old row can
-- be written back, and whether the row can be read for the answer.
pub record LeaveSteps : Type 0 where
  pub read_ok : Bool
  pub has_applier : Bool
  pub write_ok : Bool
  pub apply_ok : Bool
  pub restore_ok : Bool
  pub reread_ok : Bool

abbrev pub forget_pairings : Manager → Manager
forget_pairings m = record m { pairings = []; replays = [] }

-- `Leave`, under `operationMu`.
unfoldable pub leave : LeaveSteps → Manager → Outcome (Unit {0})
unfolding set_standalone
leave io m =
    if not io.read_ok
    then (m, err database_error)
    else if is_standalone m.state.role
    then (m, err not_member)
    else if is_replica m.state.role && not io.has_applier
    then (m, err applier_missing)
    else if not io.write_ok
    then (m, err database_error)
    else if is_replica m.state.role && not io.apply_ok
    then (if io.restore_ok
        then (record (set_standalone m) { state = m.state }, err apply_failed)
        else (set_standalone m, err restore_failed))
    else (forget_pairings (set_standalone m), (if io.reread_ok then ok tt else err status_unread))
