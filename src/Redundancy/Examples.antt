-- ===== src/Redundancy/Examples.antt =====
-- Concrete runs of the redundancy manager.
use faro.Prelude.{
  length, All, ◌==◌, nat_eq, ℕ, ◌+◌, ◌*◌, ◌≡◌, refl, true, false, [], ◌∷◌, none, some, arith, ok,
  err,
}
use faro.Prelude.Maps.{lookup}
use faro.Strings.{Bytes, bytes_eq, bytes_beq, codes, trim_space, has_prefix}
use faro.Encoding.{base64_encode, base64_decode, parse_int, rune_count}
use faro.Redundancy.Types.{
  standalone, controller, replica, LocalState, NodeRow, ConfigSnapshot, PairingSession, Manager,
  too_large, PairRequest, EncryptedEnvelope, second, minute,
}
use faro.Redundancy.Roles.{Steps, LeaveSteps}
use faro.Redundancy.Crypto.{sign_request, Primitives, NodeRequest, request_signature, pairing_proof}
use faro.Redundancy.Pairing.{PairSteps, v4, accept_pair}
use faro.Redundancy.Nodes.{
  is_replayed, NodeSteps, unix_epoch, check_timestamp, authenticate_node_request,
}
use faro.Redundancy.Snapshot.{Codec, IsLawful, encode_snapshot, decode_snapshot, decode-encode}
use faro.Redundancy.Sync.{SyncSteps, body, sync_replica}
use faro.Redundancy.Following.{Follows, sync_replica_cases}
use faro.Redundancy.Codes.{Admitted, accept_pair_success}
use faro.Redundancy.Signing.{authenticate-sign_request}
use faro.Encoding.Laws.{IsByte}

abbrev sixteen : Bytes
sixteen = codes "0123456789abcdef"

abbrev node_name_32 : Bytes
node_name_32 = codes "0123456789abcdef0123456789abcdef"

abbrev x0 : Primitives
x0 = record {
  hmac = λ k s. node_name_32;
  shared_key = λ a b c. some node_name_32;
  seal = λ k n p a. p;
  unseal = λ k n c a. some c;
  digest = λ s. s;
}

abbrev row0 : LocalState
row0 = record {
  role = controller;
  home_id = codes "home";
  node_id = node_name_32;
  node_name = codes "Primary Faro";
  controller_url = [];
  secret_ciphertext = codes "sealed";
  config_revision = 1;
  last_sync_at = none;
  last_error = [];
}

abbrev payload0 : ConfigSnapshot
payload0 = record {
  schema_version = 1;
  home_id = codes "home";
  revision = 1;
  created_at = 0;
  runtime_settings = [];
  files = [];
}

abbrev now0 : ℕ
now0 = (unix_epoch + 1700000000) * second

abbrev session0 : PairingSession
session0 = record {
  token = sixteen;
  private_key = sixteen;
  public_key = sixteen;
  expires_at = now0 + minute;
}

abbrev m0 : Manager
m0 = record {
  state = row0;
  nodes =
      (
        node_name_32,
        record {
          name = codes "Second";
          lan_address = codes "10.0.0.2";
          secret_ciphertext = codes "sealed";
          config_revision = 0;
          last_seen_at = none;
          last_sync_at = none;
          last_error = [];
        },
      )
      ∷ [];
  snapshots = (1, payload0) ∷ [];
  pairings = (sixteen, session0) ∷ [];
  replays = [];
}

abbrev replica0 : Manager
replica0 = record {
  state = record row0 { role = replica };
  nodes = [];
  snapshots = [];
  pairings = [];
  replays = [];
}

abbrev alone0 : Manager
alone0 = record replica0 { state = record row0 { role = standalone; config_revision = 0 } }

abbrev io0 : NodeSteps
io0 = record { read_ok = true; write_ok = true; decrypt = λ s. some s; now = now0; seen_at = now0 }

abbrev request0 : NodeRequest
request0 = record {
  method = codes "GET";
  uri = codes "/api/redundancy/replica/snapshot?since=0";
  node = node_name_32;
  timestamp = codes "1700000000";
  nonce = base64_encode sixteen;
  signature = base64_encode node_name_32;
  body = [];
}

abbrev after0 : Manager
after0 = (authenticate_node_request x0 io0 request0 m0).0

abbrev fails0 : LeaveSteps
fails0 = record {
  read_ok = true;
  has_applier = true;
  write_ok = true;
  apply_ok = false;
  restore_ok = true;
  reread_ok = true;
}

abbrev codec0 : Codec
codec0 = record {
  to_json = λ s. codes "{}";
  of_json = λ s. some payload0;
  compress = λ s. 31 ∷ 139 ∷ s;
  decompress = λ s. elim s [ [] ↦ none | a ∷ t ↦ elim t [ [] ↦ none | b ∷ u ↦ some u ] ];
}

abbrev sync0 : SyncSteps
sync0 = record {
  read_ok = true;
  write_ok = true;
  decrypt = λ s. some node_name_32;
  response = some (
      body (
        some (record {
          nonce = base64_encode (codes "0123456789ab");
          ciphertext = base64_encode (codes "{}");
        })));
  apply_replica = λ f r. none;
  now = now0;
}

abbrev behind0 : Manager
behind0 = record replica0 { state = record row0 { role = replica; config_revision = 0 } }

sync_replica_cases_example :
    Follows x0 codec0 sync0 behind0 (sync_replica x0 codec0 sync0 behind0).0
sync_replica_cases_example = sync_replica_cases x0 codec0 sync0 behind0

abbrev steps0 : Steps
steps0 = record {
  read_ok = true;
  reread_ok = true;
  write_ok = true;
  rename_ok = true;
  generated = some ([], []);
  now = now0;
}

abbrev pair0 : PairSteps
pair0 = record {
  steps = steps0;
  random_id = some (codes "home");
  random_token = some node_name_32;
  key_pair = some (node_name_32, node_name_32);
  nonce = some (codes "0123456789ab");
  parse_ip = λ s. some (v4 10 0 0 3);
  encrypt = λ s. some s;
  encode_payload = λ a b c d. some (codes "{}");
  store_ok = true;
}

abbrev pair_request0 : PairRequest
pair_request0 = record {
  pairing_id = sixteen;
  node_id = node_name_32;
  node_name = codes "Third";
  lan_address = codes "10.0.0.3";
  public_key = base64_encode node_name_32;
  proof = base64_encode node_name_32;
}

abbrev envelope0 : EncryptedEnvelope
envelope0 = record {
  nonce = base64_encode (codes "0123456789ab");
  ciphertext = base64_encode (codes "{}");
}

abbrev paired0 : Manager
paired0 = (accept_pair x0 pair0 pair_request0 m0).0

accepted_pair0 : accept_pair x0 pair0 pair_request0 m0 ≡ (paired0, ok envelope0)
unfolding accept_pair trim_space rune_count bytes_beq base64_decode base64_encode pairing_proof
accepted_pair0 = refl

accept_pair_success_example : Admitted x0 pair0 pair_request0 m0 paired0
accept_pair_success_example =
    accept_pair_success x0 pair0 pair_request0 m0 paired0 envelope0 accepted_pair0

law0 : IsLawful codec0 payload0
unfolding has_prefix
law0 = record {
  of_json-to_json = refl;
  json_header = refl;
  decompress-compress = λ raw. refl;
  gzip_starts = λ raw. refl;
}

encoded0 : encode_snapshot codec0 1 payload0 ≡ err too_large
unfolding encode_snapshot
encoded0 = refl

encoded1 : encode_snapshot codec0 9 payload0 ≡ ok (codes "{}")
unfolding encode_snapshot
encoded1 = refl

decode-encode_example : decode_snapshot codec0 (codes "{}") ≡ ok payload0
decode-encode_example = decode-encode codec0 9 payload0 law0 (codes "{}") encoded1

abbrev node_row0 : NodeRow
node_row0 = record {
  name = codes "Second";
  lan_address = codes "10.0.0.2";
  secret_ciphertext = codes "sealed";
  config_revision = 0;
  last_seen_at = none;
  last_sync_at = none;
  last_error = [];
}

long0 : (length (trim_space request0.node) == 32) ≡ true
unfolding trim_space
long0 = refl

found0 : lookup (trim_space request0.node) m0.nodes ≡ some node_row0
unfolding trim_space bytes_beq
found0 = refl

timely0 : check_timestamp io0.now (codes "1700000000") ≡ true
unfolding check_timestamp parse_int
timely0 = refl

fresh0 : is_replayed (trim_space request0.node) (base64_encode sixteen) m0 ≡ false
unfolding is_replayed
fresh0 = refl

hmac_bytes0 : (k t : Bytes) → All IsByte (x0.hmac k t) × (length (x0.hmac k t) ≡ 32)
hmac_bytes0 k t = (ground arith, refl)

abbrev signed0 : NodeRequest
signed0 = record request0 { nonce = base64_encode sixteen; signature = base64_encode node_name_32 }

signed0_ok :
    sign_request x0 (codes "sealed") (some sixteen) (codes "1700000000") request0 ≡ ok signed0
unfolding sign_request request_signature
signed0_ok = refl

authenticate-sign_request_example :
    (authenticate_node_request x0 io0 signed0 m0).1 ≡ ok (trim_space request0.node, codes "sealed")
authenticate-sign_request_example =
    authenticate-sign_request x0 io0 m0 node_row0 request0 signed0 (codes "sealed") sixteen
      (codes "1700000000") signed0_ok hmac_bytes0 (ground arith) refl long0 refl refl found0 refl
      timely0 fresh0
