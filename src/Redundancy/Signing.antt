-- ===== src/Redundancy/Signing.antt =====
-- internal/redundancy: a request that a replica signs is one that its controller accepts.
use faro.Prelude.{
  nat_eq, ℕ, suc, ◌≡◌, refl, subst, true, false, [], ◌∷◌, some, ◌==◌, length, arith, All, ok,
}
use faro.Prelude.Maps.{lookup}
use faro.Strings.{Bytes, bytes_eq, bytes_iff, trim_space}
use faro.Encoding.{base64_encode}
use faro.Encoding.Laws.{IsByte, base64_decode-encode}
use faro.Redundancy.Types.{is_controller, NodeRow, Manager}
use faro.Redundancy.Crypto.{
  Primitives, NodeRequest, decode_32, decode_signature, request_signature, sign_request,
}
use faro.Redundancy.Nodes.{
  NodeSteps, check_timestamp, node_secret, check_request, is_replayed, claim_nonce, after_check,
  authenticate_node_request,
}

suc_not_zero : (n : ℕ) → (suc n == 0) ≡ false
suc_not_zero n = ground arith

encode-long : (s : Bytes) → (length s == 16) ≡ true → (length (base64_encode s) == 0) ≡ false
unfolding base64_encode
encode-long [] h = absurd (ground arith)
encode-long (a ∷ []) h = refl
encode-long (a ∷ b ∷ []) h = refl
encode-long (a ∷ b ∷ c ∷ s) h = suc_not_zero (suc (suc (suc (length (base64_encode s)))))

decode_signature-encode :
    (s : Bytes) → All IsByte s → length s ≡ 32 → decode_signature (base64_encode s) ≡ ok s
unfolding decode_signature decode_32
decode_signature-encode s bytes long = ground (arith, base64_decode-encode s bytes)

-- The request that `signRequest` sends.
abbrev sent : Primitives → Bytes → Bytes → Bytes → NodeRequest → NodeRequest
sent x secret nonce timestamp r = record r {
  timestamp = timestamp;
  nonce = base64_encode nonce;
  signature = base64_encode (
      request_signature x secret (record r { timestamp = timestamp; nonce = base64_encode nonce }));
}

check-sent :
    (x : Primitives) (io : NodeSteps) (m : Manager) (row : NodeRow) (r : NodeRequest)
    (secret nonce timestamp signature : Bytes)
    → decode_signature (sent x secret nonce timestamp r).signature ≡ ok signature
    → signature ≡ request_signature x secret (sent x secret nonce timestamp r)
    → All IsByte nonce
    → (length nonce == 16) ≡ true
    → (length (trim_space r.node) == 32) ≡ true
    → io.read_ok ≡ true
    → is_controller m.state.role ≡ true
    → lookup (trim_space r.node) m.nodes ≡ some row
    → io.decrypt row.secret_ciphertext ≡ some secret
    → check_timestamp io.now timestamp ≡ true
    → check_request x io (sent x secret nonce timestamp r) m ≡ ok (trim_space r.node, secret)
unfolding check_request node_secret
check-sent x io m row r secret nonce timestamp signature decoded same bytes long node read role
      found key timely =
    rw
      (
        read,
        role,
        decoded,
        node,
        encode-long nonce long,
        timely,
        base64_decode-encode nonce bytes,
        long,
        found,
        key,
        (bytes_iff signature (request_signature x secret (sent x secret nonce timestamp r))).1 same,
      )
      refl

sent_accepted :
    (x : Primitives) (io : NodeSteps) (m : Manager) (row : NodeRow) (r : NodeRequest)
    (secret nonce timestamp : Bytes)
    → ((k t : Bytes) → All IsByte (x.hmac k t) × (length (x.hmac k t) ≡ 32))
    → All IsByte nonce
    → (length nonce == 16) ≡ true
    → (length (trim_space r.node) == 32) ≡ true
    → io.read_ok ≡ true
    → is_controller m.state.role ≡ true
    → lookup (trim_space r.node) m.nodes ≡ some row
    → io.decrypt row.secret_ciphertext ≡ some secret
    → check_timestamp io.now timestamp ≡ true
    → is_replayed (trim_space r.node) (base64_encode nonce) m ≡ false
    → (authenticate_node_request x io (sent x secret nonce timestamp r) m).1
      ≡ ok (trim_space r.node, secret)
unfolding authenticate_node_request after_check claim_nonce request_signature
sent_accepted x io m row r secret nonce timestamp mac bytes long node read role found key timely
      fresh =
    let q = sent x secret nonce timestamp r in
    let checked =
      check-sent x io m row r secret nonce timestamp
        (request_signature x secret (sent x secret nonce timestamp r))
        (decode_signature-encode (request_signature x secret (sent x secret nonce timestamp r))
          (mac _ _).0 (mac _ _).1)
        refl bytes long node read role found key timely in
    ground (arith, checked, fresh)

-- A request that is signed with the secret that the controller keeps for the node is authenticated as
-- that node's, if the controller reads its tables, the timestamp passes the clock check and the nonce
-- is new. The nonce has 16 bytes and the signature 32, as the random source and SHA-256 give them.
pub authenticate-sign_request :
    (x : Primitives) (io : NodeSteps) (m : Manager) (row : NodeRow) (r signed : NodeRequest)
    (secret nonce timestamp : Bytes)
    → sign_request x secret (some nonce) timestamp r ≡ ok signed
    → ((k t : Bytes) → All IsByte (x.hmac k t) × (length (x.hmac k t) ≡ 32))
    → All IsByte nonce
    → (length nonce == 16) ≡ true
    → (length (trim_space r.node) == 32) ≡ true
    → io.read_ok ≡ true
    → is_controller m.state.role ≡ true
    → lookup (trim_space r.node) m.nodes ≡ some row
    → io.decrypt row.secret_ciphertext ≡ some secret
    → check_timestamp io.now timestamp ≡ true
    → is_replayed (trim_space r.node) (base64_encode nonce) m ≡ false
    → (authenticate_node_request x io signed m).1 ≡ ok (trim_space r.node, secret)
unfolding sign_request
authenticate-sign_request x io m row r signed secret nonce timestamp made mac bytes long node read
      role found key timely fresh =
    subst (λ q. (authenticate_node_request x io q m).1 ≡ ok (trim_space r.node, secret))
      (ground arith)
      (sent_accepted x io m row r secret nonce timestamp mac bytes long node read role found key
        timely fresh)
