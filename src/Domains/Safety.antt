-- ===== src/Domains/Safety.antt =====
-- internal/db/db.go: what a normalized domain holds.
use faro.Prelude.{
  nat_eq, ℕ, ◌≤◌, ◌≡◌, refl, true, false, ◌||◌, [], ◌∷◌, ◌++◌, Option, some, ◌==◌, length, arith,
  ◌⊎◌, inl, inr, Bool-cases, Option-cases, Result-cases, ok, All,
}
use faro.Strings.{Bytes, bytes_eq, bytes_iff, codes, trim_space, split, split_from}
use faro.Domains.{
  Ip, is_label_byte, all_label_bytes, is_label, all_labels, check_domain, normalize_domain,
  record_type, check_family, NormalRecord, normalize_record,
}

-- A byte of a domain: a small letter, a digit, a dash or a dot.
abbrev pub IsDomainByte : ℕ → Type 0
IsDomainByte c = ((is_label_byte c || c == b'.') ≡ true)

all_label_bytes-prefix : (s t : Bytes) → all_label_bytes (s ++ t) ≡ true → all_label_bytes s ≡ true
unfolding all_label_bytes
all_label_bytes-prefix [] t h = refl
all_label_bytes-prefix (c ∷ s) t h = ground (arith, all_label_bytes-prefix s t)

last_byte : (s : Bytes) (c : ℕ) → all_label_bytes (s ++ c ∷ []) ≡ true → IsDomainByte c
unfolding all_label_bytes
last_byte [] c h = ground arith
last_byte (a ∷ s) c h = last_byte s c (ground arith)

-- The byte that was read last is in the first piece.
split_from-last :
    (cur s : Bytes) → all_labels (split_from b'.' cur s) ≡ true → all_label_bytes cur ≡ true
unfolding split_from all_labels is_label
split_from-last cur [] h = ground arith
split_from-last cur (c ∷ s) h = elim (Bool-cases (c == b'.')) [
  | inl e ↦ ground arith
  | inr e ↦ all_label_bytes-prefix cur (c ∷ []) (split_from-last (cur ++ c ∷ []) s (ground arith))
]

split_from-All : (cur s : Bytes) → all_labels (split_from b'.' cur s) ≡ true → All IsDomainByte s
unfolding split_from all_labels is_label
split_from-All cur [] h = tt
split_from-All cur (c ∷ s) h = elim (Bool-cases (c == b'.')) [
  | inl e ↦ (ground arith, split_from-All [] s (ground arith))
  | inr e ↦ (
    last_byte cur c (split_from-last (cur ++ c ∷ []) s (ground arith)),
    split_from-All (cur ++ c ∷ []) s (ground arith),
  )
]

pub normalize_domain_safe :
    (domain normal : Bytes)
    → normalize_domain domain ≡ ok normal
    → (1 ≤ length normal) × (length normal ≤ 253) × All IsDomainByte normal
unfolding normalize_domain check_domain split
normalize_domain_safe domain normal h =
    (ground arith, ground arith, split_from-All [] normal (ground arith))

-- A record that `NormalizeRecord` accepts has a host that `NormalizeDomain` accepts, and a value that
-- is an address of the record's type as `net.IP` prints it.
pub normalize_record_sound :
    (parse_ip : Bytes → Option Ip) (hostname typ value : Bytes) (r : NormalRecord)
    → normalize_record parse_ip hostname typ value ≡ ok r
    → (ip : Ip) × (normalize_domain hostname ≡ ok r.host)
      × (parse_ip (trim_space value) ≡ some ip)
      × (r.value ≡ ip.text)
      × (((r.type ≡ codes "A") × (ip.is_v4 ≡ true))
          ⊎ ((r.type ≡ codes "AAAA") × (ip.is_v4 ≡ false)))
unfolding normalize_record check_family
normalize_record_sound parse_ip hostname typ value r h =
    elim (Result-cases (normalize_domain hostname)) [
      | inr (f, e) ↦ absurd (ground arith)
      | inl (host, e) ↦ elim (Option-cases (parse_ip (trim_space value))) [
        | inl a ↦ absurd (ground arith)
        | inr (ip, a) ↦ (
          ip,
          ground arith,
          a,
          ground arith,
          ground (
            arith,
            bytes_iff (record_type typ) (codes "A"),
            bytes_iff (record_type typ) (codes "AAAA"),
          ),
        )
      ]
    ]
