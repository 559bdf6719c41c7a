-- ===== src/Encoding.antt =====
-- Go's `encoding/base64` (`RawURLEncoding`), `strconv` and `time` as far as the source uses them.
pub mod Laws
use faro.Prelude.{
  nat_eq, ℕ, zero, suc, ◌+◌, ◌-◌, ◌*◌, ◌/◌, ◌%◌, ◌^◌, Bool, true, false, ◌&&◌, ◌||◌, List, [], ◌∷◌,
  Option, none, some, ltb, leb, if◌then◌else◌, ◌==◌,
}
use faro.Strings.{Bytes}

unfoldable pub base64_char : ℕ → ℕ
base64_char n =
    if ltb n 26
    then n + 65
    else if ltb n 52
    then n + 71
    else if ltb n 62
    then n - 4
    else if n == 62
    then 45
    else 95

unfoldable pub base64_value : ℕ → Option ℕ
base64_value c =
    if leb 65 c && leb c 90
    then some (c - 65)
    else if leb 97 c && leb c 122
    then some (c - 71)
    else if leb 48 c && leb c 57
    then some (c + 4)
    else if c == 45
    then some 62
    else if c == 95
    then some 63
    else none

-- `EncodeToString`: three bytes are four digits of six bits; no padding.
unfoldable pub base64_encode : Bytes → Bytes
unfolding base64_char
base64_encode [] = []
base64_encode (a ∷ []) = base64_char (a / 4) ∷ base64_char ((a % 4) * 16) ∷ []
base64_encode (a ∷ b ∷ []) =
    base64_char (a / 4) ∷ base64_char ((a % 4) * 16 + b / 16) ∷ base64_char ((b % 16) * 4) ∷ []
base64_encode (a ∷ b ∷ c ∷ s) =
    base64_char (a / 4)
    ∷ base64_char ((a % 4) * 16 + b / 16)
    ∷ base64_char ((b % 16) * 4 + c / 64)
    ∷ base64_char (c % 64)
    ∷ base64_encode s

abbrev pub push : ℕ → Option Bytes → Option Bytes
push b none = none
push b (some s) = some (b ∷ s)

-- The digits of a text; line breaks are skipped.
unfoldable pub base64_digits : Bytes → Option (List ℕ)
unfolding base64_value
base64_digits [] = some []
base64_digits (c ∷ s) =
    let rest = base64_digits s in
    if c == 10 || c == 13
    then rest
    else elim (base64_value c) [ none ↦ none | some v ↦ push v rest ]

unfoldable pub base64_bytes : List ℕ → Option Bytes
base64_bytes [] = some []
base64_bytes (p ∷ []) = none
base64_bytes (p ∷ q ∷ []) = some ((p * 4 + q / 16) ∷ [])
base64_bytes (p ∷ q ∷ r ∷ []) = some ((p * 4 + q / 16) ∷ ((q % 16) * 16 + r / 4) ∷ [])
base64_bytes (p ∷ q ∷ r ∷ t ∷ l) =
    push (p * 4 + q / 16) (push ((q % 16) * 16 + r / 4) (push ((r % 4) * 64 + t) (base64_bytes l)))

-- `DecodeString`.
unfoldable pub base64_decode : Bytes → Option Bytes
unfolding base64_digits base64_bytes
base64_decode s = elim (base64_digits s) [ none ↦ none | some l ↦ base64_bytes l ]

-- An `int64`: its sign (`true` below zero) and its size.
abbrev pub Int64 : Type 0
Int64 = Bool × ℕ

unfoldable pub digits_value : ℕ → Bytes → Option ℕ
digits_value n [] = some n
digits_value n (c ∷ s) =
    let rest = digits_value (n * 10 + (c - 48)) s in if leb 48 c && leb c 57 then rest else none

unfoldable pub parse_digits : Bytes → Option ℕ
unfolding digits_value
parse_digits [] = none
parse_digits (c ∷ s) = digits_value 0 (c ∷ s)

unfoldable pub in_range : Bool → Option ℕ → Option Int64
in_range below none = none
in_range true (some n) = if leb n (2 ^ 63) then some (true, n) else none
in_range false (some n) = if ltb n (2 ^ 63) then some (false, n) else none

-- `strconv.ParseInt(s, 10, 64)`.
unfoldable pub parse_int : Bytes → Option Int64
unfolding in_range parse_digits
parse_int [] = none
parse_int (c ∷ s) =
    if c == b'-'
    then in_range true (parse_digits s)
    else if c == b'+'
    then in_range false (parse_digits s)
    else in_range false (parse_digits (c ∷ s))

-- The characters of a UTF-8 text: its bytes that do not continue one.
unfoldable pub rune_count : Bytes → ℕ
rune_count [] = 0
rune_count (c ∷ s) = if leb 128 c && ltb c 192 then rune_count s else suc (rune_count s)

abbrev decimal_from : ℕ → ℕ → Bytes → Bytes
decimal_from zero n tail = tail
decimal_from (suc k) n tail =
    let digits = (n % 10 + 48) ∷ tail in
    let more = decimal_from k (n / 10) digits in if ltb n 10 then digits else more

-- `%d`; twenty digits hold any 64-bit number.
unfoldable pub decimal : ℕ → Bytes
decimal n = decimal_from 20 n []
