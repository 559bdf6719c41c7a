-- ===== src/Strings/Order.antt =====
-- What `sort.Strings` makes of distinct strings.
use faro.Prelude.{
  nat_eq, ◌≡◌, refl, sym, subst, true, false, List, [], ◌∷◌, arith, ◌==◌, All, Bool-cases, inl, inr,
}
use faro.Strings.{
  Bytes, bytes_eq, bytes_beq, bytes_iff, bytes_leb, insert_sorted, sort_strings, contains_string,
}
use faro.Strings.Laws.{contains_string-sort}

-- Strictly after `s`.
abbrev pub IsAfter : Bytes → Bytes → Type 0
IsAfter s t = (bytes_leb s t ≡ true) × ((t == s) ≡ false)

-- Each string is strictly before all that follow.
abbrev pub IsAscending : List Bytes → Type 0
IsAscending [] = Unit
IsAscending (s ∷ l) = All (IsAfter s) l × IsAscending l

abbrev pub IsDistinct : List Bytes → Type 0
IsDistinct [] = Unit
IsDistinct (s ∷ l) = (contains_string s l ≡ false) × IsDistinct l

bytes_leb_total : (s t : Bytes) → bytes_leb s t ≡ false → bytes_leb t s ≡ true
unfolding bytes_leb
bytes_leb_total [] t h = absurd (ground arith)
bytes_leb_total (a ∷ s) [] h = refl
bytes_leb_total (a ∷ s) (b ∷ t) h = ground (arith, bytes_leb_total s t)

bytes_leb_trans :
    (s t u : Bytes) → bytes_leb s t ≡ true → bytes_leb t u ≡ true → bytes_leb s u ≡ true
unfolding bytes_leb
bytes_leb_trans [] t u h k = refl
bytes_leb_trans (a ∷ s) [] u h k = absurd (ground arith)
bytes_leb_trans (a ∷ s) (b ∷ t) [] h k = absurd (ground arith)
bytes_leb_trans (a ∷ s) (b ∷ t) (c ∷ u) h k = ground (arith, bytes_leb_trans s t u)

bytes_leb_antisym : (s t : Bytes) → bytes_leb s t ≡ true → bytes_leb t s ≡ true → (s == t) ≡ true
unfolding bytes_leb bytes_beq
bytes_leb_antisym [] [] h k = refl
bytes_leb_antisym [] (b ∷ t) h k = absurd (ground arith)
bytes_leb_antisym (a ∷ s) [] h k = absurd (ground arith)
bytes_leb_antisym (a ∷ s) (b ∷ t) h k = ground (arith, bytes_leb_antisym s t)

pub insert_sorted-All :
    (P : Bytes → Type 0) (s : Bytes) (l : List Bytes) → P s → All P l → All P (insert_sorted s l)
unfolding insert_sorted
insert_sorted-All P s [] h a = (h, tt)
insert_sorted-All P s (t ∷ l) h a = elim (Bool-cases (bytes_leb s t)) [
  | inl y ↦ ground (arith, h, a.0, a.1)
  | inr n ↦ ground (arith, a.0, insert_sorted-All P s l h a.1)
]

IsAfter-trans :
    (s t : Bytes) (l : List Bytes)
    → bytes_leb s t ≡ true
    → (t == s) ≡ false
    → All (IsAfter t) l
    → All (IsAfter s) l
IsAfter-trans s t [] h n a = tt
IsAfter-trans s t (u ∷ l) h n a = (
  (
    bytes_leb_trans s t u h a.0.0,
    ground (arith, bytes_iff u s, bytes_iff t s, bytes_leb_antisym s t h, bytes_iff s t),
  ),
  IsAfter-trans s t l h n a.1,
)

insert_sorted-IsAscending :
    (s : Bytes) (l : List Bytes)
    → contains_string s l ≡ false
    → IsAscending l
    → IsAscending (insert_sorted s l)
unfolding insert_sorted contains_string
insert_sorted-IsAscending s [] n a = (tt, tt)
insert_sorted-IsAscending s (t ∷ l) n a = elim (Bool-cases (bytes_leb s t)) [
  | inl y ↦
      let out : insert_sorted s (t ∷ l) ≡ s ∷ t ∷ l = ground arith in
      let differs : (t == s) ≡ false = ground arith in
      subst IsAscending (sym out) (((y, differs), IsAfter-trans s t l y differs a.0), a)
  | inr o ↦
      let out : insert_sorted s (t ∷ l) ≡ t ∷ insert_sorted s l = ground arith in
      let differs : (s == t) ≡ false = ground (arith, bytes_iff t s, bytes_iff s t) in
      subst IsAscending (sym out) (
        insert_sorted-All (IsAfter t) s l (bytes_leb_total s t o, differs) a.0,
        insert_sorted-IsAscending s l (ground arith) a.1,
      )
]

pub sort_strings-IsAscending : (l : List Bytes) → IsDistinct l → IsAscending (sort_strings l)
unfolding sort_strings
sort_strings-IsAscending [] d = tt
sort_strings-IsAscending (s ∷ l) d =
    insert_sorted-IsAscending s (sort_strings l) (ground (arith, contains_string-sort s l))
      (sort_strings-IsAscending l d.1)
