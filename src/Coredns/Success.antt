-- ===== src/Coredns/Success.antt =====
-- What a successful `Apply` has put in place.
use faro.Prelude.{
  nat_eq, ◌≡◌, refl, sym, ap, ◌∙◌, Bool, true, false, not, ◌&&◌, List, [], ◌∷◌, Option, none, some,
  arith, if◌then◌else◌, Result, ok, err, is_some, subst,
}
use faro.Prelude.Maps.{lookup, HasUniqueKeys, lookup_of_IsFresh}
use faro.Strings.{Bytes, bytes_eq, bytes_iff, contains_string}
use faro.Strings.Laws.{contains_string-sort}
use faro.Coredns.Errors.{ApplyError}
use faro.Coredns.Corefile.{
  Files, corefile_name, file_content, is_managed_name, validate_generated_files,
}
use faro.Coredns.Files.{
  FileEntry, Dir, Disk, content_of, names_of, stale_names, stale_managed_files, write_order,
  write_all, then_remove, after_failure, replace_with_rollback,
}
use faro.Coredns.Contents.{write_all_content, remove_all_content}
use faro.Coredns.Order.{contains-write_order, contains-file_names}
use faro.Coredns.Atomic.{IsPlan, make_plan-IsPlan}
use faro.Coredns.Apply.{
  World, Transport, Plan, running, make_plan, State, fail, reload_failed, commit_stage, wait_stage,
  replace_stage, prepare_stage, with_plan, apply_files_locked, finish_error, finish,
  transport_restored, count_reload, apply,
}

-- A managed file of the old set: a regular file under a managed name.
abbrev pub is_old_file : Bytes → Option FileEntry → Bool
is_old_file n none = false
is_old_file n (some e) = is_managed_name n && e.is_regular

-- What the directory should show under a name once `files` are installed over `d`.
abbrev pub installed : Files → Dir → Bytes → Option Bytes
installed files d n =
    if contains_string n (names_of files)
    then some (file_content n files)
    else if is_old_file n (lookup n d)
    then none
    else content_of n d

pub lookup_of_contains :
    (n : Bytes) (files : Files) → is_some (lookup n files) ≡ contains_string n (names_of files)
unfolding contains_string
lookup_of_contains n [] = refl
lookup_of_contains n (f ∷ files) = ground (arith, lookup_of_contains n files)

contains-stale_names :
    (files : Files) (d : Dir) (n : Bytes)
    → HasUniqueKeys d
    → contains_string n (stale_names files d)
      ≡ (is_old_file n (lookup n d) && not (contains_string n (names_of files)))
unfolding contains_string stale_names
contains-stale_names files [] n u = refl
contains-stale_names files ((m, e) ∷ d) n u = ground (
  arith,
  contains-stale_names files d n u.1,
  lookup_of_contains m files,
  lookup_of_IsFresh m d u.0,
  bytes_iff m n,
)

replace_success :
    (disk : Disk) (files : Files) (stale touched : List Bytes) (backups : Files) (d : Dir)
    (n : Bytes)
    → (replace_with_rollback disk files stale backups touched d).1 ≡ none
    → content_of n (replace_with_rollback disk files stale backups touched d).0 ≡ (
        if contains_string n stale
        then none
        else if contains_string n (names_of files)
        then some (file_content n files)
        else content_of n d)
unfolding replace_with_rollback after_failure then_remove
replace_success disk files stale touched backups d n e = ground (
  arith,
  write_all_content disk files (write_order files) d n,
  remove_all_content disk stale (write_all disk files (write_order files) d).0 n,
  contains-write_order files n,
  contains-file_names files n,
)

module _ {L : Type 0} (t : Transport L) where
  wait_success :
      (w : World) (p : Plan) (s : State t)
      → (wait_stage t w p s).error ≡ none
      → let s' = (wait_stage t w p s).state in
        (s'.dir ≡ s.dir)
        × (s'.bootstrapped ≡ true)
        × ((p.must_wait && not (w.wait_for_hash s'.dir p.expected)) ≡ false)
  unfolding wait_stage commit_stage reload_failed fail
  wait_success w p s e = ground arith

  -- The plan of a successful call, and what the call did with it.
  record HasInstalled (w : World) (files : Files) (s s' : State t) : Type 0 where
    plan : Plan
    planned : make_plan w s.bootstrapped s.dir files ≡ ok plan
    replaced :
        (replace_with_rollback w.disk files plan.stale plan.backups plan.touched s.dir).1 ≡ none
    dir : s'.dir ≡ (replace_with_rollback w.disk files plan.stale plan.backups plan.touched s.dir).0
    flag : s'.bootstrapped ≡ true
    waited : (plan.must_wait && not (w.wait_for_hash s'.dir plan.expected)) ≡ false

  replace_success_stage :
      (w : World) (p : Plan) (s : State t) (q : Dir × Option ApplyError)
      → (replace_stage t w p s q).error ≡ none
      → let s' = (replace_stage t w p s q).state in
        (q.1 ≡ none)
        × (s'.dir ≡ q.0)
        × (s'.bootstrapped ≡ true)
        × ((p.must_wait && not (w.wait_for_hash s'.dir p.expected)) ≡ false)
  unfolding replace_stage fail
  replace_success_stage w p s (d, none) e =
      let (same, flag, waited) = wait_success w p (record s { dir = d }) e in
      (refl, same, flag, waited)
  replace_success_stage w p s (d, some x) e = cc

  prepare_success :
      (w : World) (files : Files) (s : State t) (p : Plan) (o : Option t.State)
      → make_plan w s.bootstrapped s.dir files ≡ ok p
      → (prepare_stage t w files p s o).error ≡ none
      → HasInstalled w files s (prepare_stage t w files p s o).state
  unfolding prepare_stage fail
  prepare_success w files s p none h e = cc
  prepare_success w files s p (some u) h e =
      let (fine, same, flag, waited) = replace_success_stage w p (record s { transport = u }) _ e in
      record { plan = p; planned = h; replaced = fine; dir = same; flag = flag; waited = waited }

  with_plan_success :
      (w : World) (files : Files) (s : State t) (q : Result ApplyError Plan)
      → make_plan w s.bootstrapped s.dir files ≡ q
      → (with_plan t w files s q).error ≡ none
      → HasInstalled w files s (with_plan t w files s q).state
  unfolding with_plan fail
  with_plan_success w files s (err x) h e = cc
  with_plan_success w files s (ok p) h e = prepare_success w files s p _ h e

  finish_success :
      (s : State t) (prepared : Bool) (o : Option ApplyError)
      → (finish t s prepared o).1 ≡ none
      → (o ≡ none) × ((finish t s prepared o).0 ≡ s)
  unfolding finish finish_error transport_restored
  finish_success s prepared none e = (refl, refl)
  finish_success s prepared (some x) e = absurd (ground arith)

  apply_installed :
      (w : World) (files : Files) (s : State t)
      → (apply t w (ok files) s).1 ≡ none
      → HasInstalled w files (count_reload t s) (apply t w (ok files) s).0
  unfolding apply apply_files_locked
  apply_installed w files s e =
      let s' = count_reload t s in
      let o = apply_files_locked t w files s' in
      let (fine, same) = finish_success o.state o.prepared o.error e in
      subst (HasInstalled w files s') (sym same) (with_plan_success w files s' _ refl fine)

  stale_of_plan :
      (w : World) (d : Dir) (files : Files) (p : Plan) (n : Bytes)
      → HasUniqueKeys d
      → IsPlan w d files p
      → contains_string n p.stale
        ≡ (is_old_file n (lookup n d) && not (contains_string n (names_of files)))
  unfolding stale_managed_files
  stale_of_plan w d files p n u h = ground (
    arith,
    h.stale,
    contains_string-sort n (stale_names files d),
    contains-stale_names files d n u,
  )

  -- After an `Apply` without error the directory shows exactly the new set: each new file with its new
  -- content, no regular file of an older set under a managed name, and every other entry as before;
  -- the files passed the checks, and where the engine was answering it has reported the hash of the
  -- new Corefile.
  pub apply_success :
      (w : World) (files : Files) (s : State t) (h : Bytes)
      → HasUniqueKeys s.dir
      → (apply t w (ok files) s).1 ≡ none
      → w.corefile_hash (file_content corefile_name files) ≡ some h
      → let s' = (apply t w (ok files) s).0 in
        ((n : Bytes) → content_of n s'.dir ≡ installed files s.dir n)
        × (validate_generated_files files ≡ ok tt)
        × (s'.bootstrapped ≡ true)
        × ((g : Bytes) → w.live ≡ running g → w.wait_for_hash s'.dir h ≡ true)
  unfolding make_plan
  apply_success w files s h u e hashed =
      let i = apply_installed w files s e in
      let p = make_plan-IsPlan w s.bootstrapped s.dir files i.plan i.planned in
      (
        λ n.
            ap (content_of n) i.dir
            ∙ replace_success w.disk files i.plan.stale i.plan.touched i.plan.backups s.dir n
                i.replaced
            ∙ ground (arith, stale_of_plan w s.dir files i.plan n u p),
        p.valid,
        i.flag,
        λ g live. ground (arith, i.planned, i.waited, live, hashed),
      )
