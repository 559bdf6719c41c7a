-- ===== src/Redundancy/Crypto.antt =====
-- internal/redundancy/crypto.go: signatures and envelopes, over the primitives of Go's crypto
-- packages and of `golang.org/x/crypto`.
use faro.Prelude.{
  nat_eq, ◌&&◌, List, [], ◌∷◌, Option, none, some, ◌==◌, length, Result, ok, err, ◌>>=◌, ◌>>◌,
  guard,
}
use faro.Strings.{Bytes, bytes_eq, codes, trim_space, split, join}
use faro.Encoding.{base64_encode, base64_decode}
use faro.Redundancy.Types.{
  RedundancyError, invalid_request, invalid_code, invalid_envelope, not_authentic, invalid_key,
  random_failed, PairRequest, EncryptedEnvelope,
}

-- HMAC-SHA-256, X25519 (`none` on a key that the curve refuses) with HKDF, AES-GCM under a key of 32
-- bytes, and SHA-256 of a body in hexadecimal.
pub record Primitives : Type 0 where
  pub hmac : Bytes → Bytes → Bytes
  pub shared_key : Bytes → Bytes → Bytes → Option Bytes
  pub seal : Bytes → Bytes → Bytes → Bytes → Bytes
  pub unseal : Bytes → Bytes → Bytes → Bytes → Option Bytes
  pub digest : Bytes → Bytes

abbrev pub or_error : {A : Type 0} → RedundancyError → Option A → Result RedundancyError A
or_error e none = err e
or_error e (some a) = ok a

pub record ParsedPairingCode : Type 0 where
  pub id : Bytes
  pub token : Bytes
  pub controller_key : Bytes

abbrev pub pairing_prefix : Bytes
pairing_prefix = codes "FARO1"

unfoldable pub encode_pairing_code : Bytes → Bytes → Bytes → Bytes
encode_pairing_code id token public_key =
    join (codes ".") (pairing_prefix ∷ id ∷ base64_encode token ∷ base64_encode public_key ∷ [])

unfoldable pub decode_32 : RedundancyError → Bytes → Result RedundancyError Bytes
decode_32 e text = do
  bytes ← or_error e (base64_decode text)
  guard (length bytes == 32) e
  ok bytes

unfoldable pub parse_parts : List Bytes → Result RedundancyError ParsedPairingCode
unfolding decode_32
parse_parts (prefix ∷ id ∷ token ∷ key ∷ []) = do
  guard (prefix == pairing_prefix && length id == 16) invalid_code
  t ← decode_32 invalid_code token
  k ← decode_32 invalid_code key
  ok (record { id = id; token = t; controller_key = k })
parse_parts _ = err invalid_code

unfoldable pub parse_pairing_code : Bytes → Result RedundancyError ParsedPairingCode
unfolding parse_parts
parse_pairing_code value = parse_parts (split b'.' (trim_space value))

unfoldable pub pairing_proof : Primitives → Bytes → PairRequest → Bytes
pairing_proof x token r =
    x.hmac token
      (join (10 ∷ []) (r.pairing_id ∷ r.node_id ∷ r.node_name ∷ r.lan_address ∷ r.public_key ∷ []))

unfoldable pub seal_envelope :
    Primitives → Bytes → Option Bytes → Bytes → Bytes → Result RedundancyError EncryptedEnvelope
seal_envelope x key nonce plaintext purpose = do
  guard (length key == 32) invalid_key
  n ← or_error random_failed nonce
  ok (record {
    nonce = base64_encode n;
    ciphertext = base64_encode (x.seal key n plaintext purpose);
  })

unfoldable pub open_envelope :
    Primitives → Bytes → EncryptedEnvelope → Bytes → Result RedundancyError Bytes
open_envelope x key envelope purpose = do
  guard (length key == 32) invalid_key
  n ← or_error invalid_envelope (base64_decode envelope.nonce)
  guard (length n == 12) invalid_envelope
  c ← or_error invalid_envelope (base64_decode envelope.ciphertext)
  or_error not_authentic (x.unseal key n c purpose)

-- A request of a replica: its method, its target, its headers and its body.
pub record NodeRequest : Type 0 where
  pub method : Bytes
  pub uri : Bytes
  pub node : Bytes
  pub timestamp : Bytes
  pub nonce : Bytes
  pub signature : Bytes
  pub body : Bytes

unfoldable pub request_signature : Primitives → Bytes → NodeRequest → Bytes
request_signature x secret r =
    x.hmac secret (join (10 ∷ []) (r.method ∷ r.uri ∷ r.timestamp ∷ r.nonce ∷ x.digest r.body ∷ []))

unfoldable pub decode_signature : Bytes → Result RedundancyError Bytes
unfolding decode_32
decode_signature value = decode_32 invalid_request value

-- `signRequest`; `nonce` is none where the random source fails, `timestamp` is the decimal second.
unfoldable pub sign_request :
    Primitives → Bytes → Option Bytes → Bytes → NodeRequest → Result RedundancyError NodeRequest
unfolding request_signature
sign_request x secret nonce timestamp r = do
  n ← or_error random_failed nonce
  ok (record r {
    timestamp = timestamp;
    nonce = base64_encode n;
    signature =
        base64_encode (
          request_signature x secret (record r { timestamp = timestamp; nonce = base64_encode n }));
  })
