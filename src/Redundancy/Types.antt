-- ===== src/Redundancy/Types.antt =====
-- internal/redundancy/models.go: the tables and the memory of the manager. A time is a number of
-- nanoseconds since Go's zero time; columns hold whole seconds. Texts are byte strings.
use faro.Prelude.{true, false, ℕ, ◌/◌, Bool, List, Option}
use faro.Strings.{Bytes}
use faro.Encoding.{Int64}

pub data Role : Type 0 where
  standalone controller replica : Role

abbrev pub is_standalone : Role → Bool
is_standalone standalone = true
is_standalone _ = false

abbrev pub is_controller : Role → Bool
is_controller controller = true
is_controller _ = false

abbrev pub is_replica : Role → Bool
is_replica replica = true
is_replica _ = false

-- The row of `redundancy_state`.
pub record LocalState : Type 0 where
  pub role : Role
  pub home_id : Bytes
  pub node_id : Bytes
  pub node_name : Bytes
  pub controller_url : Bytes
  pub secret_ciphertext : Bytes
  pub config_revision : ℕ
  pub last_sync_at : Option ℕ
  pub last_error : Bytes

-- A row of `redundancy_nodes`, behind its `node_id`.
pub record NodeRow : Type 0 where
  pub name : Bytes
  pub lan_address : Bytes
  pub secret_ciphertext : Bytes
  pub config_revision : ℕ
  pub last_seen_at : Option ℕ
  pub last_sync_at : Option ℕ
  pub last_error : Bytes

-- `ConfigSnapshot`, before it is encoded; `files` and `runtime_settings` are name-value pairs.
pub record ConfigSnapshot : Type 0 where
  pub schema_version : ℕ
  pub home_id : Bytes
  pub revision : ℕ
  pub created_at : ℕ
  pub runtime_settings : List (Bytes × Bytes)
  pub files : List (Bytes × Bytes)

abbrev pub snapshot_schema_version : ℕ
snapshot_schema_version = 1

pub record PairingSession : Type 0 where
  pub token : Bytes
  pub private_key : Bytes
  pub public_key : Bytes
  pub expires_at : ℕ

-- The tables of the database, and the maps that the manager keeps in memory.
pub record Manager : Type 0 where
  pub state : LocalState
  pub nodes : List (Bytes × NodeRow)
  pub snapshots : List (ℕ × ConfigSnapshot)
  pub pairings : List (Bytes × PairingSession)
  pub replays : List (Bytes × List (Bytes × ℕ))

pub record PairRequest : Type 0 where
  pub pairing_id : Bytes
  pub node_id : Bytes
  pub node_name : Bytes
  pub lan_address : Bytes
  pub public_key : Bytes
  pub proof : Bytes

pub record EncryptedEnvelope : Type 0 where
  pub nonce : Bytes
  pub ciphertext : Bytes

pub record SyncAck : Type 0 where
  pub revision : Int64
  pub error : Bytes

pub data RedundancyError : Type 0 where
  database_error snapshot_unavailable role_changed revision_changed : RedundancyError
  name_too_long replica_cannot_pair not_prepared random_failed : RedundancyError
  not_controller invalid_identity invalid_address code_expired : RedundancyError
  invalid_key proof_rejected secret_failed response_failed : RedundancyError
  invalid_request invalid_timestamp invalid_nonce not_paired : RedundancyError
  authentication_failed replayed invalid_acknowledgement no_such_node : RedundancyError
  already_member not_member applier_missing apply_failed restore_failed status_unread :
      RedundancyError
  invalid_snapshot identity_or_revision invalid_join unreachable : RedundancyError
  invalid_code invalid_envelope not_authentic too_large sync_refused : RedundancyError

abbrev pub second : ℕ
second = 1000000000

abbrev pub minute : ℕ
minute = 60000000000

-- `t.UTC().Format(time.RFC3339)`.
abbrev pub to_seconds : ℕ → ℕ
to_seconds t = t / second
