-- ===== src/Coredns/Restored.antt =====
-- internal/coredns/coredns.go: an `ApplyReplica` that fails leaves the replica as it was.
use faro.Prelude.{
  nat_eq, ◌≡◌, refl, sym, ap, subst, ◌∙◌, Bool, true, false, Option, none, some, inl, inr, arith,
  Bool-cases, Option-cases, Result-cases, ok,
}
use faro.Prelude.Maps.{lookup}
use faro.Strings.{Bytes, bytes_eq}
use faro.Domains.{Ip}
use faro.Policy.Settings.{SettingsMap}
use faro.Coredns.Errors.{ApplyError, transport_not_restored}
use faro.Coredns.Corefile.{Files, validate_replica_files}
use faro.Coredns.Contents.{Restores}
use faro.Coredns.Apply.{
  World, Transport, State, Outcome, bump, apply_files_locked, finish, finish_error,
  transport_restored, count_reload, count_failure,
}
use faro.Coredns.Atomic.{SameContents, IsFailure, apply_files_locked-Good}
use faro.Coredns.Replica.{
  SettingsStore, SettingsIo, read_runtime_settings, check_runtime_settings, put_settings,
  write_runtime_settings, or_unchanged, with_settings, prepared_again, restore_runtime,
  finish_replica, install_replica, replace_settings, apply_replica,
}
use faro.Coredns.PutBack.{put_settings-back}

module _ {L : Type 0} (t : Transport L) (store : SettingsStore t)
    (parse_ip : Bytes → Option Ip) where
  -- What a failed `ApplyReplica` leaves.
  pub record IsRestored (s s' : State t) : Type 0 where
    pub contents : SameContents s'.dir s.dir
    pub flag : s'.bootstrapped ≡ s.bootstrapped
    pub settings :
        (key : Bytes)
        → lookup key (store.settings s'.transport) ≡ lookup key (store.settings s.transport)
    pub failed : s'.reload_failed_total ≡ bump t s.reload_failed_total
    pub total : s'.reload_total ≡ bump t s.reload_total

  -- Preparing the transport again touches nothing else.
  record IsSameBut (s s' : State t) : Type 0 where
    dir : s'.dir ≡ s.dir
    flag : s'.bootstrapped ≡ s.bootstrapped
    settings : store.settings s'.transport ≡ store.settings s.transport
    failed : s'.reload_failed_total ≡ s.reload_failed_total
    total : s'.reload_total ≡ s.reload_total

  prepared_again-IsSameBut :
      (s : State t) (o : Option t.State)
      → t.before_apply s.transport ≡ o
      → IsSameBut s (prepared_again t store parse_ip s o)
  prepared_again-IsSameBut s none h = record {
    dir = refl;
    flag = refl;
    settings = refl;
    failed = refl;
    total = refl;
  }
  prepared_again-IsSameBut s (some u) h = record {
    dir = refl;
    flag = refl;
    settings = store.settings-before_apply s.transport u h;
    failed = refl;
    total = refl;
  }

  -- A rollback of the transport touches nothing else.
  finish-IsSameBut :
      (s : State t) (prepared : Bool) (error : Option ApplyError)
      → IsSameBut s (finish t s prepared error).0
  unfolding finish finish_error transport_restored
  finish-IsSameBut s prepared none = record {
    dir = refl;
    flag = refl;
    settings = refl;
    failed = refl;
    total = refl;
  }
  finish-IsSameBut s false (some e) = record {
    dir = refl;
    flag = refl;
    settings = refl;
    failed = refl;
    total = refl;
  }
  finish-IsSameBut s true (some e) = elim (Option-cases (t.rollback_apply s.transport)) [
    | inl n ↦
        rw n (record { dir = refl; flag = refl; settings = refl; failed = refl; total = refl })
    | inr (u, r) ↦ rw r (record {
      dir = refl;
      flag = refl;
      settings = store.settings-rollback_apply s.transport u r;
      failed = refl;
      total = refl;
    })
  ]

  -- The settings that were written survive the installation, whatever becomes of it.
  failure_settings :
      (s : State t) (written : SettingsMap) (o : Outcome t)
      → IsFailure t (with_settings t store parse_ip written s) o
      → store.settings o.state.transport ≡ written
  failure_settings s written o f =
      let kept = store.settings-store_settings written s.transport in
      elim f.transport [
        | inl (idle, same) ↦ ap store.settings same ∙ kept
        | inr (prepared, before) ↦
            store.settings-before_apply (store.store_settings written s.transport) o.state.transport
              before
            ∙ kept
      ]

  restore_runtime-settings :
      (io : SettingsIo) (previous : SettingsMap) (s : State t)
      → check_runtime_settings parse_ip previous ≡ ok tt
      → io.restore_ok ≡ true
      → let m = put_settings previous (store.settings s.transport) in
        let s' = restore_runtime t store parse_ip io previous s in
        (s'.dir ≡ s.dir)
        × (s'.bootstrapped ≡ s.bootstrapped)
        × (store.settings s'.transport ≡ m)
        × (s'.reload_failed_total ≡ s.reload_failed_total)
        × (s'.reload_total ≡ s.reload_total)
  unfolding restore_runtime write_runtime_settings
  restore_runtime-settings io previous s checked written =
      let m = store.settings s.transport in
      let back = put_settings previous m in
      let put : or_unchanged m (write_runtime_settings parse_ip io.restore_ok previous m) ≡ back =
        ground (arith, checked, written) in
      rw put (
        let again = with_settings t store parse_ip back s in
        let same = prepared_again-IsSameBut again (t.before_apply again.transport) refl in
        (
          same.dir,
          same.flag,
          same.settings ∙ store.settings-store_settings back s.transport,
          same.failed,
          same.total,
        ))

  finish-some :
      (s : State t) (prepared : Bool) (e : ApplyError)
      → (f : ApplyError) × ((finish t s prepared (some e)).1 ≡ some f)
  unfolding finish finish_error transport_restored
  finish-some s false e = (e, refl)
  finish-some s true e = elim (Option-cases (t.rollback_apply s.transport)) [
    | inl n ↦ (transport_not_restored e, rw n refl)
    | inr (u, r) ↦ (e, rw r refl)
  ]

  finish_replica-some :
      (io : SettingsIo) (previous : SettingsMap) (r : State t × Option ApplyError) (f : ApplyError)
      → r.1 ≡ some f
      → (finish_replica t store parse_ip io previous r).0
        ≡ restore_runtime t store parse_ip io previous r.0
  unfolding finish_replica
  finish_replica-some io previous (s, none) f h = absurd (ground arith)
  finish_replica-some io previous (s, some e) f h = refl

  no_error :
      (io : SettingsIo) (previous : SettingsMap) (s : State t) (prepared : Bool)
      (error : Option ApplyError) (e : ApplyError)
      → error ≡ none
      → (finish_replica t store parse_ip io previous (finish t s prepared error)).1 ≡ some e
      → ⊥
  unfolding finish_replica finish
  no_error io previous s prepared none e n h = ground arith
  no_error io previous s prepared (some f) e n h = ground arith

  failed-IsRestored :
      (io : SettingsIo) (previous runtime : SettingsMap) (s : State t) (o : Outcome t)
      (e : ApplyError)
      → let m = store.settings s.transport in
        IsFailure t (with_settings t store parse_ip (put_settings runtime m) (count_reload t s)) o
        → check_runtime_settings parse_ip previous ≡ ok tt
        → io.restore_ok ≡ true
        → read_runtime_settings true (store.settings s.transport) ≡ some previous
        → IsRestored s
            (finish_replica t store parse_ip io previous (finish t o.state o.prepared (some e))).0
  failed-IsRestored io previous runtime s o e f checked written read =
      let m = store.settings s.transport in
      let r = finish t o.state o.prepared (some e) in
      let (g, some_error) = finish-some o.state o.prepared e in
      let same = finish-IsSameBut o.state o.prepared (some e) in
      let kept = failure_settings (count_reload t s) (put_settings runtime m) o f in
      let (dir, flag, settings, failed, total) =
        restore_runtime-settings io previous r.0 checked written in
      subst (IsRestored s) (sym (finish_replica-some io previous r g some_error)) (record {
        contents = subst (λ d. SameContents d s.dir) (sym (dir ∙ same.dir)) f.contents;
        flag = flag ∙ (same.flag ∙ f.flag);
        settings = λ key.
            ap (λ x. lookup key x) (settings ∙ ap (put_settings previous) (same.settings ∙ kept))
            ∙ put_settings-back m runtime previous key read;
        failed = failed ∙ (same.failed ∙ f.failed);
        total = total ∙ (same.total ∙ f.total);
      })

  install_replica-IsRestored :
      (w : World) (io : SettingsIo) (files : Files) (previous runtime : SettingsMap) (s : State t)
      (e : ApplyError)
      → Restores w.disk
      → check_runtime_settings parse_ip previous ≡ ok tt
      → io.restore_ok ≡ true
      → read_runtime_settings true (store.settings s.transport) ≡ some previous
      → (install_replica t store parse_ip w io files previous
          (put_settings runtime (store.settings s.transport))
          (count_reload t s)).1
        ≡ some e
      → IsRestored s
          (install_replica t store parse_ip w io files previous
            (put_settings runtime (store.settings s.transport))
            (count_reload t s)).0
  unfolding install_replica
  install_replica-IsRestored w io files previous runtime s e r checked written read h =
      let m = store.settings s.transport in
      let begun = with_settings t store parse_ip (put_settings runtime m) (count_reload t s) in
      let o = apply_files_locked t w files begun in
      elim (Option-cases o.error) [
        | inl fine ↦ absurd (no_error io previous o.state o.prepared o.error e fine h)
        | inr (e', failed) ↦ elim (apply_files_locked-Good t w begun files r) [
          | inl fine ↦ absurd (no_error io previous o.state o.prepared o.error e fine h)
          | inr f ↦
              subst
                (λ x.
                  IsRestored s
                    (finish_replica t store parse_ip io previous (finish t o.state o.prepared x)).0)
                (sym failed) (failed-IsRestored io previous runtime s o e' f checked written read)
        ]
      ]

  written_settings :
      (write_ok : Bool) (values m written : SettingsMap)
      → write_runtime_settings parse_ip write_ok values m ≡ ok written
      → written ≡ put_settings values m
  unfolding write_runtime_settings
  written_settings write_ok values m written h =
      elim (Result-cases (check_runtime_settings parse_ip values)) [
        | inr (f, a) ↦ absurd (ground arith)
        | inl (u, a) ↦ ground arith
      ]

  unchanged-IsRestored : (s : State t) → IsRestored s (count_failure t (count_reload t s))
  unchanged-IsRestored s = record {
    contents = λ n. refl;
    flag = refl;
    settings = λ key. refl;
    failed = refl;
    total = refl;
  }

  -- An `ApplyReplica` that returns an error, on a replica whose two settings are there and pass the
  -- checks of `writeRuntimeSettings`, and where the calls that restore files and settings succeed, has
  -- changed no file of the directory, no setting and not the bootstrap flag; it counts one reload and
  -- one failure.
  pub apply_replica_failure-IsRestored :
      (w : World) (io : SettingsIo) (files : Files) (runtime previous : SettingsMap) (s : State t)
      (e : ApplyError)
      → Restores w.disk
      → io.restore_ok ≡ true
      → read_runtime_settings true (store.settings s.transport) ≡ some previous
      → check_runtime_settings parse_ip previous ≡ ok tt
      → (apply_replica t store parse_ip w io files runtime s).1 ≡ some e
      → IsRestored s (apply_replica t store parse_ip w io files runtime s).0
  unfolding apply_replica replace_settings read_runtime_settings
  apply_replica_failure-IsRestored w io files runtime previous s e r back read checked h =
      let m = store.settings s.transport in
      let whole = apply_replica t store parse_ip w io files runtime s in
      let idle = count_failure t (count_reload t s) in
      elim (Result-cases (validate_replica_files files)) [
        | inr (f, a) ↦
            let out : whole.0 ≡ idle = ground arith in
            subst (IsRestored s) (sym out) (unchanged-IsRestored s)
        | inl (u, a) ↦ elim (Bool-cases io.read_ok) [
          | inr b ↦
              let none_read : read_runtime_settings io.read_ok m ≡ none = ground arith in
              let out : whole.0 ≡ idle = ground (arith, none_read) in
              subst (IsRestored s) (sym out) (unchanged-IsRestored s)
          | inl b ↦
              let found : read_runtime_settings io.read_ok m ≡ some previous =
                ground (arith, read) in
              elim (Result-cases (write_runtime_settings parse_ip io.write_ok runtime m)) [
                | inr (f, d) ↦
                    let out : whole.0 ≡ idle = ground (arith, found) in
                    subst (IsRestored s) (sym out) (unchanged-IsRestored s)
                | inl (written, d) ↦
                    let out : whole
                        ≡ install_replica t store parse_ip w io files previous
                            (put_settings runtime m) (count_reload t s) =
                      ground (arith, found, written_settings io.write_ok runtime m written d) in
                    subst (λ x. IsRestored s x.0) (sym out)
                      (install_replica-IsRestored w io files previous runtime s e r checked back
                        read (ap (λ x. x.1) (sym out) ∙ h))
              ]
        ]
      ]
