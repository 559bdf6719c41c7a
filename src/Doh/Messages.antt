-- ===== src/Doh/Messages.antt =====
-- internal/dohproxy/client.go, internal/dohproxy/probe.go and the framing of internal/dohproxy/proxy.go:
-- DNS messages as lists of bytes.
use faro.Prelude.{
  nat_eq, ℕ, ◌+◌, ◌-◌, ◌*◌, ◌/◌, ◌%◌, Bool, ◌&&◌, ◌||◌, [], ◌∷◌, ◌++◌, Option, none, some, ltb, leb,
  if◌then◌else◌, ◌==◌, length,
}
use faro.Strings.{Bytes, codes}

abbrev pub max_message_bytes : ℕ
max_message_bytes = 65535

-- `b | 0x80`
abbrev pub set_response_bit : ℕ → ℕ
set_response_bit b = if ltb b 128 then b + 128 else b

-- `message[i]`, 0 past the end.
unfoldable pub byte_at : ℕ → Bytes → ℕ
byte_at i [] = 0
byte_at i (c ∷ s) = let rest = byte_at (i - 1) s in if i == 0 then c else rest

unfoldable pub validate_query : Bytes → Bool
unfolding byte_at
validate_query message =
    leb 12 (length message) && leb (length message) max_message_bytes && ltb (byte_at 2 message) 128

-- The first two bytes, as `binary.BigEndian.Uint16` compares them.
unfoldable pub validate_response : Bytes → Bytes → Bool
unfolding byte_at
validate_response query response =
    leb 12 (length response)
    && byte_at 0 response * 256 + byte_at 1 response == byte_at 0 query * 256 + byte_at 1 query
    && leb 128 (byte_at 2 response)

-- `serverFailure` of twelve bytes and more.
abbrev failure_of : Bytes → Bytes
failure_of (a ∷ b ∷ c ∷ d ∷ e ∷ f ∷ g ∷ h ∷ i ∷ j ∷ rest) =
    a
    ∷ b
    ∷ set_response_bit c
    ∷ set_response_bit (d / 16 % 16 * 16 + 2)
    ∷ e
    ∷ f
    ∷ 0
    ∷ 0
    ∷ 0
    ∷ 0
    ∷ rest
failure_of s = s

unfoldable pub server_failure : Bytes → Bytes
server_failure query = if ltb (length query) 12 then [] else failure_of query

unfoldable pub response_code : Bytes → ℕ
unfolding byte_at
response_code message = if ltb (length message) 4 then 2 else byte_at 3 message % 16

abbrev pub take_count : ℕ → Bytes → Bytes
take_count n [] = []
take_count n (c ∷ s) = let rest = take_count (n - 1) s in if n == 0 then [] else c ∷ rest

-- `readTCPQuery`: a length of two bytes, at least 12, then as many bytes as it says.
unfoldable pub read_tcp_query : Bytes → Option Bytes
read_tcp_query (high ∷ low ∷ s) =
    if ltb (high * 256 + low) 12 || ltb (length s) (high * 256 + low)
    then none
    else some (take_count (high * 256 + low) s)
read_tcp_query _ = none

-- `writeTCPResponse`: what goes out.
unfoldable pub write_tcp_response : Bytes → Option Bytes
write_tcp_response response =
    if length response == 0 || ltb max_message_bytes (length response)
    then none
    else some (length response / 256 ∷ length response % 256 ∷ response)

-- `probeQuery`: one question for the address of example.com.
unfoldable pub probe_query : ℕ → Bytes
probe_query id =
    id / 256
    ∷ id % 256
    ∷ 1
    ∷ 0
    ∷ 0
    ∷ 1
    ∷ 0
    ∷ 0
    ∷ 0
    ∷ 0
    ∷ 0
    ∷ 0
    ∷ 7
    ∷ (codes "example" ++ 3 ∷ (codes "com" ++ 0 ∷ 0 ∷ 1 ∷ 0 ∷ 1 ∷ []))
