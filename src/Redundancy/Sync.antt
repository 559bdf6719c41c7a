-- ===== src/Redundancy/Sync.antt =====
-- internal/redundancy/manager.go and protocol.go: joining a controller, and following it.
-- `operationMu` makes each synchronization one step.
use faro.Prelude.{
  nat_eq, ℕ, ◌+◌, ◌-◌, Bool, false, not, ◌&&◌, List, [], ◌∷◌, Option, none, some, if◌then◌else◌,
  ltb, leb, ◌==◌, length, Result, ok, err, ◌>>=◌, ◌>>◌, guard,
}
use faro.Strings.{Bytes, bytes_eq, codes, trim_space}
use faro.Encoding.{base64_encode, rune_count}
use faro.Redundancy.Types.{
  replica, is_standalone, is_replica, LocalState, ConfigSnapshot, snapshot_schema_version, Manager,
  RedundancyError, database_error, already_member, invalid_join, invalid_address, unreachable,
  random_failed, secret_failed, sync_refused, too_large, identity_or_revision, apply_failed,
  PairRequest, EncryptedEnvelope, SyncAck, to_seconds,
}
use faro.Redundancy.Roles.{Outcome}
use faro.Redundancy.Crypto.{
  Primitives, or_error, ParsedPairingCode, parse_pairing_code, pairing_proof, open_envelope,
  decode_32,
}
use faro.Redundancy.Pairing.{Address, is_private_address, then_do, lift, read_state}
use faro.Redundancy.Snapshot.{Codec, decode_snapshot, max_transport_bytes, max_uncompressed_bytes}

-- The answer of the controller: status 204, another status than 200, or a body (`none` if its JSON
-- is damaged).
pub data Response : Type 0 where
  no_content refused : Response
  body : Option EncryptedEnvelope → Response

-- `response` is `none` where the request cannot be signed or sent; `apply_replica` gives the error of
-- the applier, if any.
pub record SyncSteps : Type 0 where
  pub read_ok : Bool
  pub write_ok : Bool
  pub decrypt : Bytes → Option Bytes
  pub response : Option Response
  pub apply_replica : List (Bytes × Bytes) → List (Bytes × Bytes) → Option Bytes
  pub now : ℕ

unfoldable pub truncate : ℕ → Bytes → Bytes
truncate n [] = []
truncate n (c ∷ s) = if n == 0 then [] else c ∷ truncate (n - 1) s

unfoldable pub mark_replica_synchronized : SyncSteps → Manager → Outcome (Option SyncAck)
mark_replica_synchronized io m =
    if not io.write_ok
    then (m, err database_error)
    else if is_replica m.state.role
    then (
      record m {
        state = record (m.state) { last_sync_at = some (to_seconds io.now); last_error = [] };
      },
      ok none,
    )
    else (m, ok none)

unfoldable pub check_identity : LocalState → ConfigSnapshot → Bool
check_identity state s =
    s.schema_version == snapshot_schema_version
    && s.home_id == state.home_id
    && ltb state.config_revision s.revision

-- The body limit of the envelope is part of reading it.
unfoldable pub decode_replica_snapshot :
    Primitives
    → Codec
    → Option EncryptedEnvelope
    → Bytes
    → LocalState
    → Result RedundancyError ConfigSnapshot
unfolding open_envelope decode_snapshot check_identity
decode_replica_snapshot x c reply secret state = do
  envelope ← or_error unreachable reply
  plaintext ← open_envelope x secret envelope (codes "faro-configuration-snapshot-v1")
  guard (leb (length plaintext) max_transport_bytes) too_large
  snapshot ← decode_snapshot c plaintext
  guard (check_identity state snapshot) identity_or_revision
  ok snapshot

abbrev pub total_size : List (Bytes × Bytes) → ℕ
total_size [] = 0
total_size ((name, content) ∷ files) = length content + total_size files

unfoldable pub apply_replica_snapshot :
    SyncSteps → ConfigSnapshot → Manager → Outcome (Option SyncAck)
unfolding truncate
apply_replica_snapshot io s m = elim (io.apply_replica s.files s.runtime_settings) [
  | some message ↦ (m, err apply_failed)
  | none ↦ if not io.write_ok then (m, err database_error) else (
    (if is_replica m.state.role
        then record m {
          state = record (m.state) {
            config_revision = s.revision;
            last_sync_at = some (to_seconds io.now);
            last_error = [];
          };
        }
        else m),
    ok (some (record { revision = (false, s.revision); error = [] })),
  )
]

unfoldable pub install_snapshot :
    SyncSteps → Manager → Result RedundancyError ConfigSnapshot → Outcome (Option SyncAck)
unfolding apply_replica_snapshot
install_snapshot io m (err e) = (m, err e)
install_snapshot io m (ok s) =
    if ltb max_uncompressed_bytes (total_size s.files)
    then (m, err too_large)
    else apply_replica_snapshot io s m

unfoldable pub on_response :
    Primitives → Codec → SyncSteps → Bytes → Manager → Response → Outcome (Option SyncAck)
unfolding mark_replica_synchronized decode_replica_snapshot install_snapshot
on_response x c io secret m no_content = mark_replica_synchronized io m
on_response x c io secret m refused = (m, err sync_refused)
on_response x c io secret m (body reply) =
    install_snapshot io m (decode_replica_snapshot x c reply secret m.state)

-- `syncReplica`, with the acknowledgement that it sends on success; the one that reports a failure of
-- the applier to the controller is left out.
unfoldable pub sync_replica : Primitives → Codec → SyncSteps → Manager → Outcome (Option SyncAck)
unfolding read_state on_response
sync_replica x c io m = then_do (read_state io.read_ok m) (λ n state.
    if not (is_replica state.role)
    then (n, ok none)
    else then_do (lift n (or_error secret_failed (io.decrypt state.secret_ciphertext))) (λ p secret.
      then_do (lift p (or_error unreachable io.response))
        (λ q response. on_response x c io secret q response)))

unfoldable pub record_replica_error : Bool → Bytes → Manager → Manager
unfolding truncate
record_replica_error write_ok message m =
    if write_ok && is_replica m.state.role
    then record m { state = record (m.state) { last_error = truncate 500 message } }
    else m

unfoldable pub after_sync : Bool → Bytes → Outcome (Option SyncAck) → Manager
unfolding record_replica_error
after_sync write_ok message (n, ok ack) = n
after_sync write_ok message (n, err e) = record_replica_error write_ok message n

-- One turn of `Run` for a replica: an error is recorded as `message`.
unfoldable pub sync_turn : Primitives → Codec → SyncSteps → Bool → Bytes → Manager → Manager
unfolding sync_replica after_sync
sync_turn x c io write_ok message m = after_sync write_ok message (sync_replica x c io m)

pub record JoinInput : Type 0 where
  pub controller_url : Bytes
  pub pairing_code : Bytes
  pub node_name : Bytes
  pub lan_address : Bytes

-- What `Join` meets: the controller's address as `normalizeControllerURL` gives it, a fresh key pair,
-- the controller's answer, `json.Unmarshal` of the payload (home and secret), and the master key.
pub record JoinSteps : Type 0 where
  pub read_ok : Bool
  pub write_ok : Bool
  pub normalize_url : Bytes → Option Bytes
  pub parse_ip : Bytes → Option Address
  pub key_pair : Option (Bytes × Bytes)
  pub answer : Bytes → PairRequest → Option EncryptedEnvelope
  pub payload : Bytes → Option (Bytes × Bytes)
  pub encrypt : Bytes → Option Bytes

pub record JoinParameters : Type 0 where
  pub url : Bytes
  pub code : ParsedPairingCode
  pub node_name : Bytes
  pub private_key : Bytes
  pub request : PairRequest

unfoldable pub signed_request : Primitives → Bytes → PairRequest → PairRequest
signed_request x token r = record r { proof = base64_encode (pairing_proof x token r) }

unfoldable pub prepare_join_parameters :
    Primitives → JoinSteps → JoinInput → LocalState → Result RedundancyError JoinParameters
unfolding parse_pairing_code is_private_address signed_request
prepare_join_parameters x io input state = do
  url ← or_error invalid_join (io.normalize_url input.controller_url)
  code ← parse_pairing_code input.pairing_code
  let name = trim_space input.node_name
  guard (not (length name == 0) && leb (rune_count name) 40) invalid_join
  let lan = trim_space input.lan_address
  address ← or_error invalid_address (io.parse_ip lan)
  guard (is_private_address address) invalid_address
  pair ← or_error random_failed io.key_pair
  ok (record {
    url = url;
    code = code;
    node_name = name;
    private_key = pair.0;
    request = signed_request x code.token (record {
      pairing_id = code.id;
      node_id = state.node_id;
      node_name = name;
      lan_address = lan;
      public_key = base64_encode pair.1;
      proof = [];
    });
  })

-- The home and the secret in the controller's answer.
unfoldable pub decode_pairing_response :
    Primitives
    → JoinSteps
    → JoinParameters
    → EncryptedEnvelope
    → Result RedundancyError (Bytes × Bytes)
unfolding open_envelope decode_32
decode_pairing_response x io p reply = do
  key ← or_error invalid_join (x.shared_key p.private_key p.code.controller_key p.code.token)
  plaintext ← open_envelope x key reply (codes "faro-pairing-response-v1")
  details ← or_error invalid_join (io.payload plaintext)
  secret ← decode_32 invalid_join details.1
  guard (not (length details.0 == 0)) invalid_join
  ok (details.0, secret)

unfoldable pub persist_replica_state :
    JoinSteps → JoinParameters → Bytes → Bytes → Manager → Outcome (Unit {0})
persist_replica_state io p home secret m =
    then_do (lift m (or_error secret_failed (io.encrypt secret))) (λ n ciphertext.
      if io.write_ok
      then (
        record n {
          state = record (n.state) {
            role = replica;
            home_id = home;
            node_name = p.node_name;
            controller_url = p.url;
            secret_ciphertext = ciphertext;
            config_revision = 0;
            last_sync_at = none;
            last_error = [];
          };
        },
        ok tt,
      )
      else (n, err database_error))

-- `Join` up to its first synchronization, which is a turn of `Run`.
unfoldable pub join_controller : Primitives → JoinSteps → JoinInput → Manager → Outcome (Unit {0})
unfolding read_state prepare_join_parameters decode_pairing_response persist_replica_state
join_controller x io input m = then_do (read_state io.read_ok m) (λ n state.
    if not (is_standalone state.role)
    then (n, err already_member)
    else then_do (lift n (prepare_join_parameters x io input state)) (λ p parameters.
      then_do (lift p (or_error unreachable (io.answer parameters.url parameters.request)))
        (λ q reply.
          then_do (lift q (decode_pairing_response x io parameters reply))
            (λ r details. persist_replica_state io parameters details.0 details.1 r))))
