-- ===== src/Redundancy/Snapshot.antt =====
-- internal/redundancy/snapshot.go: the encoding of a configuration. JSON and gzip are parameters.
use faro.Prelude.{
  ℕ, ◌*◌, ◌^◌, ◌≡◌, true, false, [], ◌∷◌, Option, some, if◌then◌else◌, ltb, leb, length, arith,
  Result, ok, err, ◌>>=◌,
}
use faro.Strings.{Bytes, has_prefix}
use faro.Redundancy.Types.{ConfigSnapshot, RedundancyError, too_large, invalid_snapshot}
use faro.Redundancy.Crypto.{or_error}

-- `decompress` is `none` where the gzip stream is damaged.
pub record Codec : Type 0 where
  pub to_json : ConfigSnapshot → Bytes
  pub of_json : Bytes → Option ConfigSnapshot
  pub compress : Bytes → Bytes
  pub decompress : Bytes → Option Bytes

abbrev pub gzip_header : Bytes
gzip_header = 31 ∷ 139 ∷ []

abbrev pub max_transport_bytes : ℕ
max_transport_bytes = 128 * 2 ^ 20

abbrev pub max_uncompressed_bytes : ℕ
max_uncompressed_bytes = 512 * 2 ^ 20

unfoldable pub encode_raw : Codec → ℕ → Bytes → Result RedundancyError Bytes
encode_raw c transport_limit raw =
    if ltb max_uncompressed_bytes (length raw)
    then err too_large
    else if leb (length raw) transport_limit
    then ok raw
    else if ltb transport_limit (length (c.compress raw))
    then err too_large
    else ok (c.compress raw)

unfoldable pub encode_snapshot : Codec → ℕ → ConfigSnapshot → Result RedundancyError Bytes
unfolding encode_raw
encode_snapshot c transport_limit snapshot = encode_raw c transport_limit (c.to_json snapshot)

unfoldable pub read_payload : Codec → Bytes → Result RedundancyError Bytes
read_payload c payload =
    if has_prefix gzip_header payload
    then or_error invalid_snapshot (c.decompress payload)
    else if ltb max_uncompressed_bytes (length payload)
    then err too_large
    else ok payload

unfoldable pub parse_raw : Codec → Bytes → Result RedundancyError ConfigSnapshot
parse_raw c raw =
    if ltb max_uncompressed_bytes (length raw)
    then err too_large
    else or_error invalid_snapshot (c.of_json raw)

unfoldable pub decode_snapshot : Codec → Bytes → Result RedundancyError ConfigSnapshot
unfolding read_payload parse_raw
decode_snapshot c payload = read_payload c payload >>= parse_raw c

-- What the packages promise: decoding undoes encoding, a gzip stream starts with its header, and a
-- JSON object does not. The first two are asked of the configuration at hand.
pub record IsLawful (c : Codec) (s : ConfigSnapshot) : Type 0 where
  pub of_json-to_json : c.of_json (c.to_json s) ≡ some s
  pub json_header : has_prefix gzip_header (c.to_json s) ≡ false
  pub decompress-compress : (raw : Bytes) → c.decompress (c.compress raw) ≡ some raw
  pub gzip_starts : (raw : Bytes) → has_prefix gzip_header (c.compress raw) ≡ true

parse_read :
    (c : Codec) (limit : ℕ) (s : ConfigSnapshot) (law : IsLawful c s) (payload : Bytes)
    → encode_raw c limit (c.to_json s) ≡ ok payload
    → read_payload c payload ≡ ok (c.to_json s)
unfolding encode_raw read_payload
parse_read c limit s law payload h =
    ground
      (arith, law.json_header, law.decompress-compress (c.to_json s), law.gzip_starts (c.to_json s))

-- A configuration that the controller can encode, compressed or not, is the one that a replica
-- decodes.
pub decode-encode :
    (c : Codec) (limit : ℕ) (s : ConfigSnapshot)
    → IsLawful c s
    → (payload : Bytes) → encode_snapshot c limit s ≡ ok payload
    → decode_snapshot c payload ≡ ok s
unfolding encode_snapshot decode_snapshot encode_raw parse_raw
decode-encode c limit s law payload h =
    ground (arith, parse_read c limit s law payload h, law.of_json-to_json)
