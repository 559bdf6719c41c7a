-- ===== src/Coredns/Atomic.antt =====
-- Applying a configuration is all or nothing for the directory, the transport and the flags.
use faro.Prelude.{
  nat_eq, ◌≡◌, refl, sym, ap, subst, ◌∙◌, ◌⊎◌, inl, inr, Bool, true, false, not, ◌&&◌, List, ◌++◌,
  Option, none, some, arith, Bool-cases, Option-cases, Result, ok, err,
}
use faro.Strings.{Bytes, bytes_eq, contains_string}
use faro.Strings.Laws.{contains_string-append}
use faro.Coredns.Errors.{ApplyError}
use faro.Coredns.Corefile.{Files, validate_generated_files}
use faro.Coredns.Files.{
  Dir, Disk, content_of, file_names, snapshot_files, stale_managed_files, write_order, write_all,
  then_remove, after_failure, replace_with_rollback, rollback,
}
use faro.Coredns.Contents.{
  Restores, write_all_other, remove_all_other, rollback_content, snapshot_files_content,
}
use faro.Coredns.Order.{contains-write_order}
use faro.Coredns.Apply.{
  World, Transport, Plan, make_plan, State, Outcome, bump, fail, reload_failed, commit_stage,
  wait_stage, replace_stage, prepare_stage, with_plan, apply_files_locked, transport_restored,
  finish_error, finish, count_reload, apply,
}

-- Two directories show the same contents.
abbrev pub SameContents : Dir → Dir → Type 0
SameContents d d' = (n : Bytes) → content_of n d ≡ content_of n d'

-- What `make_plan` has established when it succeeds.
pub record IsPlan (w : World) (d : Dir) (files : Files) (p : Plan) : Type 0 where
  pub valid : validate_generated_files files ≡ ok tt
  pub stale : stale_managed_files w.disk d files ≡ ok p.stale
  pub touched : p.touched ≡ file_names files ++ p.stale
  pub backups : snapshot_files d p.touched ≡ ok p.backups

pub make_plan-IsPlan :
    (w : World) (b : Bool) (d : Dir) (files : Files) (p : Plan)
    → make_plan w b d files ≡ ok p
    → IsPlan w d files p
unfolding make_plan
make_plan-IsPlan w b d files p e = record {
  valid = ground arith;
  stale = ground arith;
  touched = ground arith;
  backups = ground arith;
}

then_remove_other :
    (disk : Disk) (stale : List Bytes) (r : Dir × Option ApplyError) (n : Bytes)
    → contains_string n stale ≡ false
    → content_of n (then_remove disk stale r).0 ≡ content_of n r.0
unfolding then_remove
then_remove_other disk stale (d, none) n h = remove_all_other disk stale d n h
then_remove_other disk stale (d, some e) n h = refl

-- Before any rollback, only the touched names have changed.
replaced_other :
    (disk : Disk) (files : Files) (stale : List Bytes) (d : Dir) (n : Bytes)
    → contains_string n (file_names files ++ stale) ≡ false
    → content_of n (then_remove disk stale (write_all disk files (write_order files) d)).0
      ≡ content_of n d
replaced_other disk files stale d n h =
    let split = contains_string-append n (file_names files) stale in
    then_remove_other disk stale _ n (ground (arith, split, h))
    ∙ write_all_other disk files (write_order files) d n
        (contains-write_order files n ∙ ground (arith, split, h))

-- A rollback undoes whatever was done to the touched names.
rollback_same :
    (w : World) (d d' : Dir) (files : Files) (p : Plan)
    → IsPlan w d files p
    → Restores w.disk
    → ((n : Bytes) → contains_string n p.touched ≡ false → content_of n d' ≡ content_of n d)
    → SameContents (rollback w.disk p.backups p.touched d') d
rollback_same w d d' files p h r other n =
    rollback_content w.disk p.backups p.touched d' n r
    ∙ elim (Bool-cases (contains_string n p.touched)) [
      | inl there ↦
          rw there
            (snapshot_files_content d p.touched p.backups h.backups n ∙ ground (arith, there))
      | inr absent ↦ rw absent (other n absent)
    ]

after_failure_cases :
    (w : World) (d : Dir) (files : Files) (p : Plan) (r : Dir × Option ApplyError)
    → IsPlan w d files p
    → Restores w.disk
    → ((n : Bytes) → contains_string n p.touched ≡ false → content_of n r.0 ≡ content_of n d)
    → let q = after_failure w.disk p.backups p.touched r in
      ((q.1 ≡ none) × (q.0 ≡ r.0)) ⊎ SameContents q.0 d
unfolding after_failure
after_failure_cases w d files p (d', none) h r other = inl (refl, refl)
after_failure_cases w d files p (d', some e) h r other =
    inr (rollback_same w d d' files p h r other)

after_failure_other :
    (disk : Disk) (backups : Files) (touched : List Bytes) (r : Dir × Option ApplyError) (n : Bytes)
    → Restores disk
    → contains_string n touched ≡ false
    → content_of n (after_failure disk backups touched r).0 ≡ content_of n r.0
unfolding after_failure
after_failure_other disk backups touched (d, none) n r h = refl
after_failure_other disk backups touched (d, some e) n r h =
    rollback_content disk backups touched d n r ∙ rw h

module _ {L : Type 0} (t : Transport L) where
  -- An error leaves everything a client sees as it was.
  pub record IsUndone (s s' : State t) : Type 0 where
    pub contents : SameContents s'.dir s.dir
    pub flag : s'.bootstrapped ≡ s.bootstrapped
    pub live : t.live s'.transport ≡ t.live s.transport

  -- The outcome of `applyFilesLocked` is an error only with the directory as it was; the transport is
  -- as before, or prepared.
  pub record IsFailure (s : State t) (o : Outcome t) : Type 0 where
    pub contents : SameContents o.state.dir s.dir
    pub flag : o.state.bootstrapped ≡ s.bootstrapped
    pub failed : o.state.reload_failed_total ≡ bump t s.reload_failed_total
    pub total : o.state.reload_total ≡ s.reload_total
    pub transport :
        ((o.prepared ≡ false) × (o.state.transport ≡ s.transport))
        ⊎ ((o.prepared ≡ true) × (t.before_apply s.transport ≡ some o.state.transport))

  abbrev pub Good : State t → Outcome t → Type 0
  Good s o = (o.error ≡ none) ⊎ IsFailure s o

  fail_early : (s : State t) (e : ApplyError) → Good s (fail t s false e)
  unfolding fail
  fail_early s e = inr (record {
    contents = λ n. refl;
    flag = refl;
    failed = refl;
    total = refl;
    transport = inl (refl, refl);
  })

  module _ (w : World) (s : State t) (files : Files) (p : Plan) (u : t.State)
      (h : IsPlan w s.dir files p) (r : Restores w.disk)
      (prep : t.before_apply s.transport ≡ some u) where
    abbrev prepared_state : Dir → State t
    prepared_state d = record s { dir = d; transport = u }

    abbrev Outside : Dir → Type 0
    Outside d =
        (n : Bytes) → contains_string n p.touched ≡ false → content_of n d ≡ content_of n s.dir

    reload_failed-Good :
        (d : Dir) (e : ApplyError) → Outside d → Good s (reload_failed t w p (prepared_state d) e)
    unfolding reload_failed
    reload_failed-Good d e other = inr (record {
      contents = rollback_same w s.dir d files p h r other;
      flag = refl;
      failed = refl;
      total = refl;
      transport = inr (refl, prep);
    })

    commit_stage-Good :
        (d : Dir) (o : Option t.State)
        → Outside d
        → Good s (commit_stage t w p (prepared_state d) o)
    unfolding commit_stage
    commit_stage-Good d none other = reload_failed-Good d _ other
    commit_stage-Good d (some v) other = inl refl

    wait_stage-Good : (d : Dir) → Outside d → Good s (wait_stage t w p (prepared_state d))
    unfolding wait_stage
    wait_stage-Good d other =
        elim (Bool-cases (p.must_wait && not (w.wait_for_hash d p.expected))) [
          | inl late ↦ rw late (reload_failed-Good d _ other)
          | inr fine ↦ rw fine (commit_stage-Good d (t.commit_apply u) other)
        ]

    replace_stage-Good :
        (q : Dir × Option ApplyError)
        → Outside q.0
        → ((q.1 ≡ none) ⊎ SameContents q.0 s.dir)
        → Good s (replace_stage t w p (prepared_state s.dir) q)
    unfolding replace_stage fail
    replace_stage-Good (d, none) other c = wait_stage-Good d other
    replace_stage-Good (d, some e) other c = elim c [
      | inl no_error ↦ absurd (ground (arith, no_error))
      | inr same ↦ inr (record {
        contents = same;
        flag = refl;
        failed = refl;
        total = refl;
        transport = inr (refl, prep);
      })
    ]

  prepare_stage-Good :
      (w : World) (s : State t) (files : Files) (p : Plan) (o : Option t.State)
      → IsPlan w s.dir files p
      → Restores w.disk
      → t.before_apply s.transport ≡ o
      → Good s (prepare_stage t w files p s o)
  unfolding prepare_stage replace_with_rollback
  prepare_stage-Good w s files p none h r prep = fail_early s _
  prepare_stage-Good w s files p (some u) h r prep =
      let written = then_remove w.disk p.stale (write_all w.disk files (write_order files) s.dir) in
      let other : (n : Bytes)
          → contains_string n p.touched ≡ false
          → content_of n written.0 ≡ content_of n s.dir =
        λ n e.
          replaced_other w.disk files p.stale s.dir n
            (ap (contains_string n) (sym h.touched) ∙ e) in
      replace_stage-Good w s files p u h r prep (after_failure w.disk p.backups p.touched written)
        (λ n e. after_failure_other w.disk p.backups p.touched written n r e ∙ other n e)
        (elim (after_failure_cases w s.dir files p written h r other) [
          | inl (fine, _) ↦ inl fine
          | inr same ↦ inr same
        ])

  with_plan-Good :
      (w : World) (s : State t) (files : Files) (q : Result ApplyError Plan)
      → make_plan w s.bootstrapped s.dir files ≡ q
      → Restores w.disk
      → Good s (with_plan t w files s q)
  unfolding with_plan
  with_plan-Good w s files (err e) h r = fail_early s e
  with_plan-Good w s files (ok p) h r =
      prepare_stage-Good w s files p _ (make_plan-IsPlan w s.bootstrapped s.dir files p h) r refl

  pub apply_files_locked-Good :
      (w : World) (s : State t) (files : Files)
      → Restores w.disk
      → Good s (apply_files_locked t w files s)
  unfolding apply_files_locked
  apply_files_locked-Good w s files r = with_plan-Good w s files _ refl r

  -- The error path of `Apply`, whether or not the transport was prepared.
  finish_error-IsUndone :
      (s : State t) (o : Outcome t) (e : ApplyError)
      → IsFailure s o
      → let s' = (finish_error t o.state o.prepared e).0 in
        IsUndone s s'
        × (s'.reload_failed_total ≡ bump t s.reload_failed_total)
        × (s'.reload_total ≡ s.reload_total)
  unfolding finish_error
  finish_error-IsUndone s o e f = elim f.transport [
    | inl (idle, same) ↦
        rw idle (
          record { contents = f.contents; flag = f.flag; live = ap t.live same },
          f.failed,
          f.total,
        )
    | inr (prepared, before) ↦
        let (v, back, same) = t.rollback_restores s.transport o.state.transport before in
        rw (prepared, back, transport_restored)
          (record { contents = f.contents; flag = f.flag; live = same }, f.failed, f.total)
  ]

  finish-IsUndone :
      (s : State t) (o : Outcome t) (e : ApplyError)
      → Good s o
      → (finish t o.state o.prepared o.error).1 ≡ some e
      → let s' = (finish t o.state o.prepared o.error).0 in
        IsUndone s s'
        × (s'.reload_failed_total ≡ bump t s.reload_failed_total)
        × (s'.reload_total ≡ s.reload_total)
  unfolding finish
  finish-IsUndone s o e g h = elim (Option-cases o.error) [
    | inl fine ↦ absurd (no_error (subst (λ x. (finish t o.state o.prepared x).1 ≡ some e) fine h))
    | inr (e', failed) ↦ elim g [
      | inl fine ↦
          absurd (no_error (subst (λ x. (finish t o.state o.prepared x).1 ≡ some e) fine h))
      | inr f ↦ rw failed (finish_error-IsUndone s o e' f)
    ]
  ]
    where
      no_error : none ≡ some e → ⊥
      no_error x = cc

  -- `Apply` that returns an error, where the calls that restore files succeed, has changed nothing
  -- that a client sees: each file of the directory reads as before, the transport is what it was, the
  -- bootstrap flag is kept, and one reload and one failure are counted.
  pub apply_failure-IsUndone :
      (w : World) (rendered : Result ApplyError Files) (s : State t) (e : ApplyError)
      → Restores w.disk
      → (apply t w rendered s).1 ≡ some e
      → let s' = (apply t w rendered s).0 in
        IsUndone s s'
        × (s'.reload_failed_total ≡ bump t s.reload_failed_total)
        × (s'.reload_total ≡ bump t s.reload_total)
  unfolding apply
  apply_failure-IsUndone w (err why) s e r h =
      (record { contents = λ n. refl; flag = refl; live = refl }, refl, refl)
  apply_failure-IsUndone w (ok files) s e r h =
      let s' = count_reload t s in
      let o = apply_files_locked t w files s' in
      let (undone, failed, total) =
        finish-IsUndone s' o e (apply_files_locked-Good w s' files r) h in
      (record { contents = undone.contents; flag = undone.flag; live = undone.live }, failed, total)
