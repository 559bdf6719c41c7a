-- ===== src/Blocklists/Lines.antt =====
-- internal/blocklists/blocklists.go: what `Parse` finds in a list.
use faro.Prelude.{
  nat_eq, ◌≡◌, refl, ap, subst, ◌∙◌, Bool, true, false, ◌||◌, List, [], ◌∷◌, Option, none, some,
  arith, ◌==◌, All, Bool-cases, Option-cases, Result-cases, inl, inr, ok,
}
use faro.Strings.{
  Bytes, bytes_eq, bytes_iff, codes, trim_space, trim_prefix, fields, split, sort_strings,
  contains_string,
}
use faro.Strings.Laws.{contains_string-sort}
use faro.Strings.Order.{insert_sorted-All, IsAscending, IsDistinct, sort_strings-IsAscending}
use faro.Domains.{normalize_domain}
use faro.Domains.Safety.{normalize_domain_safe}
use faro.Policy.{any_row}
use faro.Policy.HostsFile.{IsName}
use faro.Blocklists.{
  drop_return, before_byte, candidate, add_seen, parse_candidate, parse_trimmed,
  parse_blocklist_line, scan_lines, parse,
}

-- The line gives the domain.
abbrev gives : Bytes → Option Bytes → Bool
gives domain none = false
gives domain (some found) = found == domain

-- The line, as the scanner hands it on, gives the domain.
unfoldable pub line_gives : Bytes → Bytes → Bool
unfolding parse_blocklist_line
line_gives domain line = gives domain (parse_blocklist_line (drop_return line))

or_swap : (a b c : Bool) → (a || (b || c)) ≡ ((b || a) || c)
or_swap true true c = refl
or_swap true false c = refl
or_swap false true c = refl
or_swap false false c = refl

or_false : (a : Bool) → (a || false) ≡ a
or_false true = refl
or_false false = refl

add_seen_again :
    (domain found : Bytes) (seen : List Bytes)
    → (found == domain) ≡ true
    → contains_string found seen ≡ contains_string domain seen
add_seen_again domain found seen h = ap (λ s. contains_string s seen) ((bytes_iff found domain).0 h)

parse_candidate-IsName :
    (found : Option Bytes) (domain : Bytes) → parse_candidate found ≡ some domain → IsName domain
unfolding parse_candidate
parse_candidate-IsName none domain h = absurd (ground arith)
parse_candidate-IsName (some s) domain h =
    elim (Result-cases (normalize_domain (trim_prefix (codes ".") s))) [
      | inr (f, e) ↦ absurd (ground arith)
      | inl (normal, e) ↦
          let same : normal ≡ domain = ground arith in
          let safe = normalize_domain_safe (trim_prefix (codes ".") s) normal e in
          subst IsName same (safe.0, safe.2)
    ]

parse_trimmed-IsName : (line domain : Bytes) → parse_trimmed line ≡ some domain → IsName domain
unfolding parse_trimmed
parse_trimmed-IsName line domain h =
    parse_candidate-IsName (candidate (fields (trim_space (before_byte b'#' line)))) domain
      (ground arith)

scan_lines-IsDistinct :
    (seen lines out : List Bytes)
    → IsDistinct seen
    → scan_lines seen lines ≡ ok out
    → IsDistinct out
unfolding scan_lines
scan_lines-IsDistinct seen [] out d h = ground arith
scan_lines-IsDistinct seen (line ∷ lines) out d h =
    elim (Option-cases (parse_blocklist_line (drop_return line))) [
      | inl e ↦ scan_lines-IsDistinct seen lines out d (ground arith)
      | inr (domain, e) ↦ elim (Bool-cases (contains_string domain seen)) [
        | inl y ↦ scan_lines-IsDistinct seen lines out d (ground arith)
        | inr n ↦ scan_lines-IsDistinct (domain ∷ seen) lines out (n, d) (ground arith)
      ]
    ]

contains_string-add_seen :
    (domain : Bytes) (found : Option Bytes) (seen : List Bytes)
    → contains_string domain (add_seen found seen)
      ≡ (gives domain found || contains_string domain seen)
unfolding contains_string
contains_string-add_seen domain none seen = refl
contains_string-add_seen domain (some found) seen =
    ground (arith, bytes_iff found domain, add_seen_again domain found seen)

contains_string-scan_lines :
    (domain : Bytes) (seen lines out : List Bytes)
    → scan_lines seen lines ≡ ok out
    → contains_string domain out
      ≡ (any_row (line_gives domain) lines || contains_string domain seen)
unfolding scan_lines any_row line_gives
contains_string-scan_lines domain seen [] out h = ground arith
contains_string-scan_lines domain seen (line ∷ lines) out h =
    let found = parse_blocklist_line (drop_return line) in
    let rest : scan_lines (add_seen found seen) lines ≡ ok out = ground arith in
    contains_string-scan_lines domain (add_seen found seen) lines out rest
    ∙ ap (λ b. any_row (line_gives domain) lines || b) (contains_string-add_seen domain found seen)
    ∙ or_swap (any_row (line_gives domain) lines) (gives domain found) (contains_string domain seen)

scan_lines-IsName :
    (seen lines out : List Bytes)
    → All IsName seen
    → scan_lines seen lines ≡ ok out
    → All IsName out
unfolding scan_lines parse_blocklist_line
scan_lines-IsName seen [] out a h = ground arith
scan_lines-IsName seen (line ∷ lines) out a h =
    elim (Option-cases (parse_blocklist_line (drop_return line))) [
      | inl e ↦ scan_lines-IsName seen lines out a (ground arith)
      | inr (domain, e) ↦ elim (Bool-cases (contains_string domain seen)) [
        | inl y ↦ scan_lines-IsName seen lines out a (ground arith)
        | inr n ↦
            scan_lines-IsName (domain ∷ seen) lines out
              (parse_trimmed-IsName (trim_space (drop_return line)) domain e, a) (ground arith)
      ]
    ]

sort_strings-All : (P : Bytes → Type 0) (l : List Bytes) → All P l → All P (sort_strings l)
unfolding sort_strings
sort_strings-All P [] a = tt
sort_strings-All P (s ∷ l) a = insert_sorted-All P s (sort_strings l) a.0 (sort_strings-All P l a.1)

-- The domains that `Parse` returns are those that some line of the list gives, in strictly ascending
-- order, and each is a name that the DNS files may hold.
pub parse_sound :
    (read_ok : Bool) (text : Bytes) (domains : List Bytes)
    → parse read_ok text ≡ ok domains
    → IsAscending domains
      × All IsName domains
      × ((domain : Bytes)
          → contains_string domain domains ≡ any_row (line_gives domain) (split 10 text))
unfolding parse
parse_sound read_ok text domains h = elim (Result-cases (scan_lines [] (split 10 text))) [
  | inr (f, e) ↦ absurd (ground arith)
  | inl (seen, e) ↦
      let same : sort_strings seen ≡ domains = ground arith in
      subst
        (λ l.
          IsAscending l
          × All IsName l
          × ((domain : Bytes)
              → contains_string domain l ≡ any_row (line_gives domain) (split 10 text)))
        same
        (
          sort_strings-IsAscending seen (scan_lines-IsDistinct [] (split 10 text) seen tt e),
          sort_strings-All IsName seen (scan_lines-IsName [] (split 10 text) seen tt e),
          λ domain.
              contains_string-sort domain seen
              ∙ contains_string-scan_lines domain [] (split 10 text) seen e
              ∙ or_false (any_row (line_gives domain) (split 10 text)),
        )
]
