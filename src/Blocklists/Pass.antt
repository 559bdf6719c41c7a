-- ===== src/Blocklists/Pass.antt =====
-- internal/blocklists/blocklists.go: what an automatic pass leaves in the tables.
use faro.Prelude.{
  nat_eq, ℕ, ◌≡◌, refl, ap, subst, ◌∙◌, Bool, true, false, ◌||◌, List, [], ◌∷◌, Option, some, ◌⊎◌,
  inl, inr, ◌==◌, arith, Bool-cases, Result, ok, err,
}
use faro.Blocklists.{RefreshError}
use faro.Blocklists.Refresh.{ListRow, Lists, World, find_list, update_list, refresh_and_apply}
use faro.Blocklists.Restore.{IsRefreshed, find_list-update_list, refresh_and_apply-IsRefreshed}
use faro.Blocklists.Due.{due_ids, is_err, refresh_each, refresh_due}

-- The number is in the list.
abbrev pub has_id : ℕ → List ℕ → Bool
has_id id [] = false
has_id id (i ∷ l) = i == id || has_id id l

or_false_left : (a b : Bool) → (a || b) ≡ false → a ≡ false
or_false_left a b h = ground arith

or_false_right : (a b : Bool) → (a || b) ≡ false → b ≡ false
or_false_right a b h = ground arith

find_list-update_other :
    (id i : ℕ) (new : ListRow) (lists : Lists)
    → (i == id) ≡ false
    → find_list i (update_list id new lists) ≡ find_list i lists
unfolding find_list update_list
find_list-update_other id i new [] h = refl
find_list-update_other id i new ((j, row) ∷ l) h =
    ground (arith, find_list-update_other id i new l h)

-- A refresh touches no other list.
IsRefreshed-other :
    (apply : Option (Lists → Bool)) (w : World) (id i : ℕ) (lists after : Lists)
    (result : Result RefreshError ℕ)
    → IsRefreshed apply w id lists (after, result)
    → (i == id) ≡ false
    → find_list i after ≡ find_list i lists
IsRefreshed-other apply w id i lists after (ok count) (row, new, f, changed, t, c, o, a) n =
    ap (find_list i) changed ∙ find_list-update_other id i new lists n
IsRefreshed-other apply w id i lists after (err e) (inl same) n = ap (find_list i) same
IsRefreshed-other apply w id i lists after (err e) (inr (f, new, same, changed)) n =
    ap (find_list i) changed ∙ find_list-update_other id i new lists n

-- A refresh without an error gives the list the time of the refresh.
IsRefreshed-time :
    (apply : Option (Lists → Bool)) (w : World) (id : ℕ) (lists after : Lists)
    (result : Result RefreshError ℕ)
    → IsRefreshed apply w id lists (after, result)
    → is_err result ≡ false
    → (row : ListRow) × (find_list id after ≡ some row) × (row.last_refreshed_at ≡ some w.now)
IsRefreshed-time apply w id lists after (err e) h n = absurd (ground arith)
IsRefreshed-time apply w id lists after (ok count) (row, new, f, changed, time, c, o, a) n =
    (new, ap (find_list id) changed ∙ find_list-update_list id row new lists f, time)

module _ (apply : Option (Lists → Bool)) (worlds : ℕ → World) where
  failed_stays :
      (ids : List ℕ) (lists : Lists) (failed : Bool)
      → (refresh_each apply worlds ids lists failed).1 ≡ false
      → failed ≡ false
  unfolding refresh_each
  failed_stays [] lists failed h = h
  failed_stays (id ∷ l) lists failed h =
      let done = refresh_and_apply apply (worlds id) id lists in
      let now = failed_stays l done.0 (failed || is_err done.1) h in
      or_false_left failed (is_err done.1) now

  refresh_each-other :
      (ids : List ℕ) (lists : Lists) (failed : Bool) (i : ℕ)
      → has_id i ids ≡ false
      → find_list i (refresh_each apply worlds ids lists failed).0 ≡ find_list i lists
  unfolding refresh_each
  refresh_each-other [] lists failed i h = refl
  refresh_each-other (id ∷ l) lists failed i h =
      let done = refresh_and_apply apply (worlds id) id lists in
      refresh_each-other l done.0 (failed || is_err done.1) i (ground arith)
      ∙ IsRefreshed-other apply (worlds id) id i lists done.0 done.1
          (refresh_and_apply-IsRefreshed apply (worlds id) id lists) (ground arith)

  refresh_each-time :
      (ids : List ℕ) (lists : Lists) (failed : Bool) (i : ℕ)
      → (refresh_each apply worlds ids lists failed).1 ≡ false
      → has_id i ids ≡ true
      → (row : ListRow) × (find_list i (refresh_each apply worlds ids lists failed).0 ≡ some row)
        × (row.last_refreshed_at ≡ some (worlds i).now)
  unfolding refresh_each
  refresh_each-time [] lists failed i h m = absurd (ground arith)
  refresh_each-time (id ∷ l) lists failed i h m =
      let done = refresh_and_apply apply (worlds id) id lists in
      let later = failed || is_err done.1 in
      elim (Bool-cases (has_id i l)) [
        | inl y ↦ refresh_each-time l done.0 later i h y
        | inr n ↦
            let same : id ≡ i = ground arith in
            let fine = or_false_right failed (is_err done.1) (failed_stays l done.0 later h) in
            let (row, found, time) =
              IsRefreshed-time apply (worlds id) id lists done.0 done.1
                (refresh_and_apply-IsRefreshed apply (worlds id) id lists) fine in
            (
              row,
              refresh_each-other l done.0 later i n
                  ∙ subst (λ j. find_list j done.0 ≡ some row) same found,
              subst (λ j. row.last_refreshed_at ≡ some (worlds j).now) same time,
            )
      ]

  -- After a pass that reports no failure, every list that was due was refreshed at the time of its
  -- refresh, and every other list is as it was.
  pub refresh_due_lem :
      (cutoff : ℕ) (lists : Lists) (i : ℕ)
      → (refresh_due apply worlds cutoff lists).1 ≡ false
      → ((has_id i (due_ids cutoff lists) ≡ true)
          × (row : ListRow) × (find_list i (refresh_due apply worlds cutoff lists).0 ≡ some row)
          × (row.last_refreshed_at ≡ some (worlds i).now))
        ⊎ ((has_id i (due_ids cutoff lists) ≡ false)
            × (find_list i (refresh_due apply worlds cutoff lists).0 ≡ find_list i lists))
  unfolding refresh_due
  refresh_due_lem cutoff lists i h =
      let ids = due_ids cutoff lists in
      elim (Bool-cases (has_id i ids)) [
        | inl m ↦
            let (row, found, time) = refresh_each-time ids lists false i h m in
            inl (m, row, found, time)
        | inr n ↦ inr (n, refresh_each-other ids lists false i n)
      ]
