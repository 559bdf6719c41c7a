-- ===== src/Domains.antt =====
-- internal/db/db.go: `NormalizeDomain` and `NormalizeRecord`, the gate to the names and addresses that
-- the generated DNS files hold. `net.ParseIP` is a parameter.
pub mod Safety
mod Examples
use faro.Prelude.{
  nat_eq, ℕ, ◌+◌, ◌-◌, Bool, true, false, not, ◌&&◌, ◌||◌, List, [], ◌∷◌, Option, none, some, ltb,
  leb, if◌then◌else◌, ◌==◌, length, Result, ok, err, ◌>>=◌, ◌>>◌, guard,
}
use mathlib.Core.List.{reverse}
use faro.Strings.{Bytes, bytes_eq, codes, trim_space, to_lower, trim_suffix, split, contains_any}

pub data DomainError : Type 0 where
  domain_required invalid_domain unsupported_type value_required address_required : DomainError
  ipv4_required ipv6_required : DomainError

unfoldable pub is_label_byte : ℕ → Bool
is_label_byte c = (leb b'a' c && leb c b'z') || (leb b'0' c && leb c b'9') || c == b'-'

unfoldable pub all_label_bytes : Bytes → Bool
unfolding is_label_byte
all_label_bytes [] = true
all_label_bytes (c ∷ s) = is_label_byte c && all_label_bytes s

unfoldable pub starts_with_dash : Bytes → Bool
starts_with_dash [] = false
starts_with_dash (c ∷ s) = c == b'-'

unfoldable pub is_label : Bytes → Bool
unfolding all_label_bytes starts_with_dash
is_label s =
    not (length s == 0)
    && leb (length s) 63
    && not (starts_with_dash s)
    && not (starts_with_dash (reverse s))
    && all_label_bytes s

unfoldable pub all_labels : List Bytes → Bool
unfolding is_label
all_labels [] = true
all_labels (s ∷ l) = is_label s && all_labels l

unfoldable pub lowered : Bytes → Bytes
lowered domain = trim_suffix (codes ".") (trim_space (to_lower domain))

unfoldable pub check_domain : Bytes → Result DomainError Bytes
unfolding all_labels
check_domain normalized = do
  guard (not (length normalized == 0)) domain_required
  guard
      (leb (length normalized) 253 && not (contains_any (32 ∷ 9 ∷ 13 ∷ 10 ∷ b'/' ∷ []) normalized))
      invalid_domain
  guard (all_labels (split b'.' normalized)) invalid_domain
  ok normalized

unfoldable pub normalize_domain : Bytes → Result DomainError Bytes
unfolding lowered check_domain
normalize_domain domain = check_domain (lowered domain)

-- What `net.ParseIP` gives: whether the address has four bytes, and how `String` prints it.
pub record Ip : Type 0 where
  pub is_v4 : Bool
  pub text : Bytes

unfoldable pub to_upper : Bytes → Bytes
to_upper [] = []
to_upper (c ∷ s) = (if leb b'a' c && leb c b'z' then c - 32 else c) ∷ to_upper s

unfoldable pub record_type : Bytes → Bytes
unfolding to_upper
record_type typ =
    if length (to_upper (trim_space typ)) == 0 then codes "A" else to_upper (trim_space typ)

unfoldable pub check_family : Bytes → Option Ip → Result DomainError Bytes
check_family typ none = err address_required
check_family typ (some ip) =
    if typ == codes "A" && not ip.is_v4
    then err ipv4_required
    else if typ == codes "AAAA" && ip.is_v4
    then err ipv6_required
    else ok ip.text

pub record NormalRecord : Type 0 where
  pub host : Bytes
  pub type : Bytes
  pub value : Bytes

unfoldable pub normalize_record :
    (Bytes → Option Ip) → Bytes → Bytes → Bytes → Result DomainError NormalRecord
unfolding normalize_domain record_type check_family
normalize_record parse_ip hostname typ value = do
  host ← normalize_domain hostname
  guard (record_type typ == codes "A" || record_type typ == codes "AAAA") unsupported_type
  guard (not (length (trim_space value) == 0)) value_required
  text ← check_family (record_type typ) (parse_ip (trim_space value))
  ok (record { host = host; type = record_type typ; value = text })
