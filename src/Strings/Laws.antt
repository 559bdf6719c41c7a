-- ===== src/Strings/Laws.antt =====
-- What the proofs use of the string functions.
use faro.Prelude.{nat_eq, ◌≡◌, refl, ◌||◌, List, [], ◌∷◌, ◌++◌, arith, ◌==◌}
use faro.Strings.{Bytes, bytes_eq, contains_string, insert_sorted, sort_strings}

pub contains_string-append :
    (s : Bytes) (l k : List Bytes)
    → contains_string s (l ++ k) ≡ (contains_string s l || contains_string s k)
unfolding contains_string
contains_string-append s [] k = refl
contains_string-append s (t ∷ l) k = ground (arith, contains_string-append s l k)

pub contains_string-insert_sorted :
    (s t : Bytes) (l : List Bytes)
    → contains_string s (insert_sorted t l) ≡ (t == s || contains_string s l)
unfolding contains_string insert_sorted
contains_string-insert_sorted s t [] = refl
contains_string-insert_sorted s t (u ∷ l) = ground (arith, contains_string-insert_sorted s t l)

-- Sorting keeps what a list contains.
pub contains_string-sort :
    (s : Bytes) (l : List Bytes) → contains_string s (sort_strings l) ≡ contains_string s l
unfolding contains_string sort_strings
contains_string-sort s [] = refl
contains_string-sort s (t ∷ l) =
    ground (arith, contains_string-insert_sorted s t (sort_strings l), contains_string-sort s l)
