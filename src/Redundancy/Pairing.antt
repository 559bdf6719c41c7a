-- ===== src/Redundancy/Pairing.antt =====
-- internal/redundancy/manager.go and protocol.go: the pairing of a replica on the controller.
-- `pairingMu` makes each call of `AcceptPair` one step.
use faro.Prelude.{
  nat_eq, ℕ, ◌+◌, ◌*◌, ◌/◌, Bool, true, false, not, ◌&&◌, ◌||◌, List, [], ◌∷◌, Option, none, some,
  if◌then◌else◌, ltb, leb, ◌==◌, length, Result, ok, err, ◌>>=◌, ◌>>◌, guard,
}
use faro.Prelude.Maps.{lookup, insert, delete}
use faro.Strings.{Bytes, bytes_eq, codes, trim_space}
use faro.Encoding.{base64_encode, base64_decode, rune_count}
use faro.Redundancy.Types.{
  is_standalone, is_controller, is_replica, LocalState, PairingSession, Manager, RedundancyError,
  database_error, name_too_long, replica_cannot_pair, not_prepared, random_failed, not_controller,
  invalid_identity, invalid_address, code_expired, invalid_key, proof_rejected, secret_failed,
  PairRequest, EncryptedEnvelope, minute, to_seconds,
}
use faro.Redundancy.Roles.{Steps, Outcome, initialize_controller, capture_snapshot}
use faro.Redundancy.Crypto.{
  Primitives, or_error, encode_pairing_code, decode_32, pairing_proof, seal_envelope,
}

-- An address as `net.ParseIP` gives it; a mapped IPv4 address is an IPv4 address.
pub data Address : Type 0 where
  v4 : ℕ → ℕ → ℕ → ℕ → Address
  v6 : List ℕ → Address

abbrev pub between : ℕ → ℕ → ℕ → Bool
between low high n = leb low n && leb n high

abbrev pub localhost : List ℕ
localhost = 0 ∷ 0 ∷ 0 ∷ 0 ∷ 0 ∷ 0 ∷ 0 ∷ 0 ∷ 0 ∷ 0 ∷ 0 ∷ 0 ∷ 0 ∷ 0 ∷ 0 ∷ 1 ∷ []

unfoldable pub carrier_grade_nat : Address → Bool
carrier_grade_nat (v4 a b c d) = a == 100 && b / 64 == 1
carrier_grade_nat (v6 l) = false

-- `isPrivateAddress`: private, loopback, link-local or shared by a carrier.
unfoldable pub is_private_address : Address → Bool
unfolding carrier_grade_nat
is_private_address (v4 a b c d) =
    (a == 10 || (a == 172 && b / 16 == 1) || (a == 192 && b == 168))
    || a == 127
    || (a == 169 && b == 254)
    || carrier_grade_nat (v4 a b c d)
is_private_address (v6 (a ∷ b ∷ l)) =
    a / 2 == 126 || (a ∷ b ∷ l) == localhost || (a == 254 && b / 64 == 2)
is_private_address (v6 _) = false

-- What pairing meets: random bytes and a fresh key pair (`none` if the source of random bytes fails),
-- `net.ParseIP`, the master key, the encoding of the answer, and the time.
pub record PairSteps : Type 0 where
  pub steps : Steps
  pub random_id : Option Bytes
  pub random_token : Option Bytes
  pub key_pair : Option (Bytes × Bytes)
  pub nonce : Option Bytes
  pub parse_ip : Bytes → Option Address
  pub encrypt : Bytes → Option Bytes
  pub encode_payload : Bytes → Bytes → Bytes → ℕ → Option Bytes
  pub store_ok : Bool

unfoldable pub normalize_pairing_node_name : Bytes → Result RedundancyError Bytes
normalize_pairing_node_name name =
    let trimmed = trim_space name in
    let chosen = if length trimmed == 0 then codes "Primary Faro" else trimmed in
    if ltb 40 (rune_count chosen) then err name_too_long else ok chosen

-- The calls of a handler follow one another: an error ends it with the state reached.
abbrev pub then_do : {A B : Type 0} → Outcome A → (Manager → A → Outcome B) → Outcome B
then_do (m, ok a) k = k m a
then_do (m, err e) k = (m, err e)

abbrev pub lift : {A : Type 0} → Manager → Result RedundancyError A → Outcome A
lift m r = (m, r)

unfoldable pub read_state : Bool → Manager → Outcome LocalState
read_state true m = (m, ok m.state)
read_state false m = (m, err database_error)

unfoldable pub rename_controller : Steps → Bytes → LocalState → Manager → Outcome LocalState
rename_controller io name state m =
    if state.node_name == name
    then (m, ok state)
    else if io.rename_ok
    then (
      record m { state = record (m.state) { node_name = name } },
      ok (record state { node_name = name }),
    )
    else (m, err database_error)

-- A controller at revision 0 has never captured its configuration.
unfoldable pub repair_snapshot : Steps → LocalState → Manager → Outcome LocalState
unfolding capture_snapshot read_state
repair_snapshot io state m =
    if state.config_revision == 0
    then then_do (capture_snapshot io state m) (λ n u. read_state io.reread_ok n)
    else (m, ok state)

unfoldable pub prepare_pairing_state : PairSteps → Bytes → Manager → Outcome LocalState
unfolding read_state initialize_controller repair_snapshot rename_controller
prepare_pairing_state io name m = then_do (read_state io.steps.read_ok m) (λ n state.
    if is_replica state.role
    then (n, err replica_cannot_pair)
    else if is_standalone state.role
    then then_do (lift n (or_error random_failed io.random_id)) (λ p home.
      then_do (initialize_controller io.steps state home name p)
        (λ q u. read_state io.steps.reread_ok q))
    else then_do (repair_snapshot io.steps state n)
        (λ p repaired. rename_controller io.steps name repaired p))

abbrev pub pairing_lifetime : ℕ
pairing_lifetime = 10 * minute

-- The code and the second at which it expires.
unfoldable pub create_pairing_code : PairSteps → Manager → Outcome (Bytes × ℕ)
create_pairing_code io m = then_do (lift m (or_error random_failed io.random_id)) (λ n id.
    then_do (lift n (or_error random_failed io.random_token)) (λ p token.
      then_do (lift p (or_error random_failed io.key_pair)) (λ q pair. (
        record q {
          pairings =
              insert id
                (record {
                  token = token;
                  private_key = pair.0;
                  public_key = pair.1;
                  expires_at = io.steps.now + pairing_lifetime;
                })
                q.pairings;
        },
        ok (encode_pairing_code id token pair.1, to_seconds (io.steps.now + pairing_lifetime)),
      ))))

unfoldable pub start_pairing : PairSteps → Bytes → Manager → Outcome (Bytes × ℕ)
unfolding normalize_pairing_node_name prepare_pairing_state create_pairing_code
start_pairing io name m = then_do (lift m (normalize_pairing_node_name name)) (λ n chosen.
    then_do (prepare_pairing_state io chosen n) (λ p state.
      if ltb state.config_revision 1 then (p, err not_prepared) else create_pairing_code io p))

unfoldable pub normalize_pair_request : PairSteps → PairRequest → Result RedundancyError PairRequest
unfolding is_private_address
normalize_pair_request io r = do
  let node = trim_space r.node_id
  let name = trim_space r.node_name
  let lan = trim_space r.lan_address
  guard (length node == 32 && not (length name == 0) && leb (rune_count name) 40) invalid_identity
  address ← or_error invalid_address (io.parse_ip lan)
  guard (is_private_address address) invalid_address
  ok (record r { node_id = node; node_name = name; lan_address = lan })

unfoldable pub live_session : ℕ → Option PairingSession → Result RedundancyError PairingSession
live_session now none = err code_expired
live_session now (some s) = if ltb now s.expires_at then ok s else err code_expired

unfoldable pub pairing_session : ℕ → Bytes → Manager → Result RedundancyError PairingSession
unfolding live_session
pairing_session now id m = live_session now (lookup id m.pairings)

unfoldable pub verify_pairing_proof :
    Primitives → PairingSession → PairRequest → Result RedundancyError (Unit {0})
verify_pairing_proof x session r = do
  proof ← or_error proof_rejected (base64_decode r.proof)
  guard (proof == pairing_proof x session.token r) proof_rejected

unfoldable pub store_paired_node : ℕ → PairRequest → Bytes → Manager → Manager
store_paired_node now r ciphertext m = record m {
  nodes =
      insert r.node_id
        (record {
          name = r.node_name;
          lan_address = r.lan_address;
          secret_ciphertext = ciphertext;
          config_revision = 0;
          last_seen_at = some (to_seconds now);
          last_sync_at = none;
          last_error = [];
        })
        m.nodes;
}

unfoldable pub consume_pairing : Bytes → Manager → Manager
consume_pairing id m = record m { pairings = delete id m.pairings }

-- A request whose identity, code, key and proof are accepted, with its session and public key.
unfoldable pub check_pair :
    Primitives
    → PairSteps
    → PairRequest
    → Manager
    → Result RedundancyError (PairRequest × PairingSession × Bytes)
unfolding normalize_pair_request pairing_session decode_32 verify_pairing_proof
check_pair x io r m = do
  input ← normalize_pair_request io r
  session ← pairing_session io.steps.now input.pairing_id m
  key ← decode_32 invalid_key input.public_key
  verify_pairing_proof x session input
  ok (input, session, key)

-- The answer under the key that both sides derive.
unfoldable pub pair_response :
    Primitives
    → PairSteps
    → LocalState
    → PairingSession
    → Bytes
    → Bytes
    → Result RedundancyError EncryptedEnvelope
unfolding seal_envelope
pair_response x io state session key secret = do
  shared ← or_error invalid_key (x.shared_key session.private_key key session.token)
  payload ←
      or_error secret_failed
        (io.encode_payload state.home_id state.node_id (base64_encode secret) state.config_revision)
  seal_envelope x shared io.nonce payload (codes "faro-pairing-response-v1")

unfoldable pub pair_node :
    Primitives
    → PairSteps
    → LocalState
    → Manager
    → PairRequest
    → PairingSession
    → Bytes
    → Outcome EncryptedEnvelope
unfolding store_paired_node pair_response consume_pairing
pair_node x io state m input session key =
    then_do (lift m (or_error random_failed io.random_token)) (λ n secret.
      then_do (lift n (or_error secret_failed (io.encrypt secret))) (λ p ciphertext.
        if not io.store_ok
        then (p, err database_error)
        else then_do
            (lift (store_paired_node io.steps.now input ciphertext p)
              (pair_response x io state session key secret))
            (λ q envelope. (consume_pairing input.pairing_id q, ok envelope))))

unfoldable pub accept_pair :
    Primitives → PairSteps → PairRequest → Manager → Outcome EncryptedEnvelope
unfolding read_state repair_snapshot check_pair pair_node
accept_pair x io r m = then_do (read_state io.steps.read_ok m) (λ n state.
    if not (is_controller state.role)
    then (n, err not_controller)
    else then_do (repair_snapshot io.steps state n) (λ p current.
      then_do (lift p (check_pair x io r p))
        (λ q checked. pair_node x io current q checked.0 checked.1 checked.2)))
