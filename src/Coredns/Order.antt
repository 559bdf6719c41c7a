-- ===== src/Coredns/Order.antt =====
-- The order in which new files are put in place: the Corefile comes last, so that a stop between two
-- writes never leaves a new Corefile beside a hosts file that is not there yet.
use faro.Prelude.{
  nat_eq, ◌≡◌, refl, sym, ap, ◌∙◌, ◌⊎◌, inl, inr, true, false, ◌||◌, List, [], ◌∷◌, ◌++◌, none,
  some, arith, ltb, length, ◌==◌, Bool-cases,
}
use mathlib.Core.List.{head-eq_of_cons-eq, tail-eq_of_cons-eq, append-nil}
use faro.Prelude.Maps.{IsFresh, HasUniqueKeys}
use faro.Strings.{Bytes, bytes_eq, bytes_iff, contains_string, insert_sorted, sort_strings}
use faro.Strings.Laws.{contains_string-append, contains_string-sort, contains_string-insert_sorted}
use faro.Coredns.Corefile.{Files, corefile_name, file_content}
use faro.Coredns.Files.{
  Dir, Disk, content_of, names_of, file_names, take_out, write_order, write_all,
}
use faro.Coredns.Contents.{write_all_content, write_all_other}

contains-take_out :
    (name n : Bytes) (l : List Bytes)
    → contains_string name l ≡ true
    → (contains_string n (take_out name l) || (name == n)) ≡ contains_string n l
unfolding contains_string take_out
contains-take_out name n [] h = cc
contains-take_out name n (m ∷ l) h =
    ground (arith, contains-take_out name n l, bytes_iff m name, bytes_iff m n, bytes_iff name n)

pub contains-write_order :
    (files : Files) (n : Bytes)
    → contains_string n (write_order files) ≡ contains_string n (file_names files)
unfolding write_order contains_string
contains-write_order files n = ground (
  arith,
  contains-take_out corefile_name n (file_names files),
  contains_string-append n (take_out corefile_name (file_names files)) (corefile_name ∷ []),
)

pub contains-file_names :
    (files : Files) (n : Bytes)
    → contains_string n (file_names files) ≡ contains_string n (names_of files)
unfolding file_names
contains-file_names files n = contains_string-sort n (names_of files)

abbrev IsDistinct : List Bytes → Type 0
IsDistinct [] = Unit
IsDistinct (s ∷ l) = (contains_string s l ≡ false) × IsDistinct l

insert_sorted-IsDistinct :
    (s : Bytes) (l : List Bytes)
    → contains_string s l ≡ false
    → IsDistinct l
    → IsDistinct (insert_sorted s l)
unfolding insert_sorted contains_string
insert_sorted-IsDistinct s [] h d = (refl, tt)
insert_sorted-IsDistinct s (t ∷ l) h d = ground (
  arith,
  insert_sorted-IsDistinct s l,
  contains_string-insert_sorted t s l,
  bytes_iff s t,
  bytes_iff t s,
)

sort-IsDistinct : (l : List Bytes) → IsDistinct l → IsDistinct (sort_strings l)
unfolding sort_strings
sort-IsDistinct [] d = tt
sort-IsDistinct (s ∷ l) (fresh, d) =
    insert_sorted-IsDistinct s (sort_strings l) (contains_string-sort s l ∙ fresh)
      (sort-IsDistinct l d)

take_out-IsDistinct :
    (name : Bytes) (l : List Bytes) → IsDistinct l → contains_string name (take_out name l) ≡ false
unfolding contains_string take_out
take_out-IsDistinct name [] d = refl
take_out-IsDistinct name (m ∷ l) d =
    ground (arith, take_out-IsDistinct name l d.1, bytes_iff m name, d.0)

contains_of_IsFresh :
    (n : Bytes) (files : Files) → IsFresh n files → contains_string n (names_of files) ≡ false
unfolding contains_string
contains_of_IsFresh n [] h = refl
contains_of_IsFresh n (f ∷ files) h = ground (arith, contains_of_IsFresh n files h.1)

names-IsDistinct : (files : Files) → HasUniqueKeys files → IsDistinct (names_of files)
names-IsDistinct [] u = tt
names-IsDistinct (f ∷ files) u = (contains_of_IsFresh f.0 files u.0, names-IsDistinct files u.1)

file_names-IsDistinct : (files : Files) → HasUniqueKeys files → IsDistinct (file_names files)
unfolding file_names
file_names-IsDistinct files u = sort-IsDistinct (names_of files) (names-IsDistinct files u)

nil_of_append : (xs : List Bytes) (y : Bytes) (ys : List Bytes) → xs ++ (y ∷ ys) ≡ [] → ⊥
nil_of_append [] y ys e = cc
nil_of_append (x ∷ xs) y ys e = cc

-- A proper prefix of a list with one more item at its end is a prefix of the list.
contains_of_prefix :
    (n : Bytes) (xs : List Bytes) (y : Bytes) (ys l : List Bytes) (c : Bytes)
    → l ++ (c ∷ []) ≡ xs ++ (y ∷ ys)
    → contains_string n l ≡ false
    → contains_string n xs ≡ false
unfolding contains_string
contains_of_prefix n [] y ys l c e h = refl
contains_of_prefix n (x ∷ xs) y ys [] c e h =
    absurd (nil_of_append xs y ys (sym (tail-eq_of_cons-eq e)))
contains_of_prefix n (x ∷ xs) y ys (t ∷ l) c e h =
    let same = head-eq_of_cons-eq e in
    let ih = contains_of_prefix n xs y ys l c (tail-eq_of_cons-eq e) in ground (arith, same, ih, h)

short_prefix :
    (n : Bytes) (l xs : List Bytes) (y : Bytes) (ys : List Bytes)
    → ltb 1 (length l) ≡ false
    → l ≡ xs ++ (y ∷ ys)
    → contains_string n xs ≡ false
unfolding contains_string
short_prefix n l [] y ys h e = refl
short_prefix n l (x ∷ []) y ys h e = absurd (ground (arith, ap length e))
short_prefix n l (x ∷ z ∷ xs) y ys h e = absurd (ground (arith, ap length e))

absent_prefix :
    (n : Bytes) (l xs ys : List Bytes)
    → contains_string n l ≡ false
    → l ≡ xs ++ ys
    → contains_string n xs ≡ false
absent_prefix n l xs ys h e =
    ground (arith, contains_string-append n xs ys, ap (contains_string n) e)

-- The Corefile is in no proper prefix of the write order.
proper_prefix :
    (files : Files) (xs : List Bytes) (y : Bytes) (ys : List Bytes)
    → HasUniqueKeys files
    → write_order files ≡ xs ++ (y ∷ ys)
    → contains_string corefile_name xs ≡ false
unfolding write_order
proper_prefix files xs y ys u e =
    let names = file_names files in
    elim (Bool-cases (ltb 1 (length names))) [
      | inr few ↦ short_prefix corefile_name names xs y ys few (ground (arith, e, few))
      | inl many ↦ elim (Bool-cases (contains_string corefile_name names)) [
        | inl there ↦
            contains_of_prefix corefile_name xs y ys (take_out corefile_name names) corefile_name
              (ground (arith, e, many, there))
              (take_out-IsDistinct corefile_name names (file_names-IsDistinct files u))
        | inr absent ↦
            absent_prefix corefile_name names xs (y ∷ ys) absent (ground (arith, e, many, absent))
      ]
    ]

-- Stop the loop that puts the new files in place after any number of writes: either the Corefile is
-- still the old one, or every new file is in place.
pub write_prefix_consistent :
    (disk : Disk) (files : Files) (xs ys : List Bytes) (d : Dir)
    → HasUniqueKeys files
    → write_order files ≡ xs ++ ys
    → (write_all disk files xs d).1 ≡ none
    → let d' = (write_all disk files xs d).0 in
      (content_of corefile_name d' ≡ content_of corefile_name d)
      ⊎ ((n : Bytes)
          → contains_string n (names_of files) ≡ true
          → content_of n d' ≡ some (file_content n files))
write_prefix_consistent disk files xs [] d u e h = inr λ n there. ground (
  arith,
  write_all_content disk files xs d n h,
  contains-write_order files n,
  contains-file_names files n,
  ap (contains_string n) (e ∙ append-nil xs),
)
write_prefix_consistent disk files xs (y ∷ ys) d u e h =
    inl (write_all_other disk files xs d corefile_name (proper_prefix files xs y ys u e))
