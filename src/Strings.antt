-- ===== src/Strings.antt =====
-- Go's `strings` and `sort` packages as far as the source uses them. A Go string is its list of
-- bytes; white space and letter case are those of ASCII.
pub mod Laws
pub mod Order
mod Examples
use Prim.Native.Char.{code}
use faro.Prelude.{
  Comparable, nat_eq, ℕ, zero, suc, ◌+◌, ◌≡◌, refl, ◌↔◌, Bool, true, false, ◌&&◌, ◌||◌, List, [],
  ◌∷◌, ◌++◌, Option, none, some, String, arith, ltb, leb, if◌then◌else◌, ◌==◌, nat_beq, is_some,
}
use mathlib.Core.List.{reverse}

abbrev pub Bytes : Type 0
Bytes = List ℕ

-- An ASCII literal as bytes.
abbrev pub codes : String → Bytes
codes (String.◌∷◌ letter rest) = code letter ∷ codes rest
codes String.[] = []

unfoldable pub bytes_beq : Bytes → Bytes → Bool
bytes_beq [] [] = true
bytes_beq (a ∷ s) (b ∷ t) = nat_beq a b && bytes_beq s t
bytes_beq _ _ = false

pub bytes_iff : (s t : Bytes) → (bytes_beq s t ≡ true) ↔ (s ≡ t)
unfolding bytes_beq
bytes_iff [] [] = ground arith
bytes_iff [] (b ∷ t) = ground arith
bytes_iff (a ∷ s) [] = ground arith
bytes_iff (a ∷ s) (b ∷ t) = ground (arith, bytes_iff s t)

instance abbrev pub bytes_eq : Comparable Bytes
bytes_eq = record { same = bytes_beq; same_iff = bytes_iff }

unfoldable pub is_space : ℕ → Bool
is_space c = c == 32 || (leb 9 c && leb c 13)

unfoldable pub trim_left : Bytes → Bytes
unfolding is_space
trim_left [] = []
trim_left (c ∷ s) = if is_space c then trim_left s else c ∷ s

-- `strings.TrimSpace`.
unfoldable pub trim_space : Bytes → Bytes
unfolding trim_left
trim_space s = reverse (trim_left (reverse (trim_left s)))

-- `strings.Split` at one byte; `cur` is the piece being read.
unfoldable pub split_from : ℕ → Bytes → Bytes → List Bytes
split_from sep cur [] = cur ∷ []
split_from sep cur (c ∷ s) =
    let closed = cur ∷ split_from sep [] s in
    let longer = split_from sep (cur ++ c ∷ []) s in if c == sep then closed else longer

unfoldable pub split : ℕ → Bytes → List Bytes
unfolding split_from
split sep s = split_from sep [] s

abbrev pub drop_empty : List Bytes → List Bytes
drop_empty [] = []
drop_empty ([] ∷ l) = drop_empty l
drop_empty ((c ∷ s) ∷ l) = (c ∷ s) ∷ drop_empty l

-- `strings.Fields`.
unfoldable pub fields_from : Bytes → Bytes → List Bytes
unfolding is_space
fields_from cur [] = drop_empty (cur ∷ [])
fields_from cur (c ∷ s) =
    let closed = drop_empty (cur ∷ fields_from [] s) in
    let longer = fields_from (cur ++ c ∷ []) s in if is_space c then closed else longer

unfoldable pub fields : Bytes → List Bytes
unfolding fields_from
fields s = fields_from [] s

-- `strings.CutPrefix`.
unfoldable pub cut_prefix : Bytes → Bytes → Option Bytes
cut_prefix [] s = some s
cut_prefix (p ∷ ps) [] = none
cut_prefix (p ∷ ps) (c ∷ s) = if c == p then cut_prefix ps s else none

unfoldable pub has_prefix : Bytes → Bytes → Bool
unfolding cut_prefix
has_prefix p s = is_some (cut_prefix p s)

unfoldable pub has_suffix : Bytes → Bytes → Bool
unfolding has_prefix
has_suffix p s = has_prefix (reverse p) (reverse s)

abbrev or_same : Bytes → Option Bytes → Bytes
or_same s none = s
or_same s (some t) = t

unfoldable pub trim_prefix : Bytes → Bytes → Bytes
unfolding cut_prefix
trim_prefix p s = or_same s (cut_prefix p s)

unfoldable pub trim_suffix : Bytes → Bytes → Bytes
unfolding trim_prefix
trim_suffix p s = reverse (trim_prefix (reverse p) (reverse s))

-- `strings.Contains`.
unfoldable pub contains : Bytes → Bytes → Bool
unfolding has_prefix
contains p [] = has_prefix p []
contains p (c ∷ s) = has_prefix p (c ∷ s) || contains p s

abbrev bump : Option ℕ → Option ℕ
bump none = none
bump (some i) = some (i + 1)

-- `strings.Index` for one byte.
unfoldable pub index_byte : ℕ → Bytes → Option ℕ
index_byte b [] = none
index_byte b (c ∷ s) = if c == b then some 0 else bump (index_byte b s)

unfoldable pub contains_byte : ℕ → Bytes → Bool
contains_byte b [] = false
contains_byte b (c ∷ s) = c == b || contains_byte b s

unfoldable pub contains_any : Bytes → Bytes → Bool
unfolding contains_byte
contains_any set [] = false
contains_any set (c ∷ s) = contains_byte c set || contains_any set s

unfoldable pub to_lower : Bytes → Bytes
to_lower [] = []
to_lower (c ∷ s) = (if leb b'A' c && leb c b'Z' then c + 32 else c) ∷ to_lower s

unfoldable pub join : Bytes → List Bytes → Bytes
join sep [] = []
join sep (s ∷ []) = s
join sep (s ∷ t ∷ l) = s ++ (sep ++ join sep (t ∷ l))

-- The order of `sort.Strings`.
unfoldable pub bytes_leb : Bytes → Bytes → Bool
bytes_leb [] t = true
bytes_leb (a ∷ s) [] = false
bytes_leb (a ∷ s) (b ∷ t) = ltb a b || (a == b && bytes_leb s t)

unfoldable pub insert_sorted : Bytes → List Bytes → List Bytes
unfolding bytes_leb
insert_sorted s [] = s ∷ []
insert_sorted s (t ∷ l) = if bytes_leb s t then s ∷ t ∷ l else t ∷ insert_sorted s l

unfoldable pub sort_strings : List Bytes → List Bytes
unfolding insert_sorted
sort_strings [] = []
sort_strings (s ∷ l) = insert_sorted s (sort_strings l)

-- Membership of a text in a list (`containsString`, or a key of a set).
unfoldable pub contains_string : Bytes → List Bytes → Bool
contains_string s [] = false
contains_string s (t ∷ l) = t == s || contains_string s l
