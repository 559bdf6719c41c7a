-- ===== src/Coredns/Replica.antt =====
-- internal/coredns/coredns.go: `ApplyReplica`, which installs the files that a controller produced. The
-- two settings that the transport reads are written before it is prepared, and put back on a failure.
use faro.Prelude.{
  nat_eq, ◌≡◌, Bool, not, ◌&&◌, ◌||◌, [], ◌∷◌, Option, none, some, leb, if◌then◌else◌, ◌==◌,
  is_some, length, Result, ok, err, ◌>>◌, guard,
}
use faro.Prelude.Maps.{lookup, insert}
use faro.Strings.{Bytes, bytes_eq, codes, trim_space}
use faro.Domains.{Ip}
use faro.Policy.Settings.{SettingsMap, setting, split_csv, all_parse}
use faro.Coredns.Errors.{
  ApplyError, settings_failed, upstreams_invalid, resolver_invalid, upstream_transport_invalid,
}
use faro.Coredns.Corefile.{Files, validate_replica_files}
use faro.Coredns.Apply.{
  World, Transport, State, apply_files_locked, finish, count_reload, count_failure,
}

abbrev pub dns_key : Bytes
dns_key = codes "upstream_dns"

abbrev pub transport_key : Bytes
transport_key = codes "upstream_transport"

-- The hooks read the settings from the store, which is part of their state: they keep it, and writing
-- it does not reach the live transport.
pub record SettingsStore {L : Type 0} (t : Transport L) : Type 0 where
  pub settings : t.State → SettingsMap
  pub store_settings : SettingsMap → t.State → t.State
  pub settings-store_settings : (m : SettingsMap) (u : t.State) → settings (store_settings m u) ≡ m
  pub settings-before_apply : (u v : t.State) → t.before_apply u ≡ some v → settings v ≡ settings u
  pub settings-rollback_apply :
      (u v : t.State) → t.rollback_apply u ≡ some v → settings v ≡ settings u

-- Whether the statements on the settings succeed: reading, writing, and putting back.
pub record SettingsIo : Type 0 where
  pub read_ok : Bool
  pub write_ok : Bool
  pub restore_ok : Bool

abbrev pub two_settings : Option Bytes → Option Bytes → Option SettingsMap
two_settings (some dns) (some transport) = some ((dns_key, dns) ∷ (transport_key, transport) ∷ [])
two_settings _ _ = none

-- `readRuntimeSettings`: a setting that is not there is an error.
unfoldable pub read_runtime_settings : Bool → SettingsMap → Option SettingsMap
read_runtime_settings read_ok m =
    if read_ok then two_settings (lookup dns_key m) (lookup transport_key m) else none

unfoldable pub check_runtime_settings :
    (Bytes → Option Ip) → SettingsMap → Result ApplyError (Unit {0})
unfolding setting split_csv all_parse trim_space
check_runtime_settings parse_ip values = do
  let upstreams = split_csv (setting dns_key values)
  guard (not (length upstreams == 0) && leb (length upstreams) 15) upstreams_invalid
  guard (all_parse (λ s. is_some (parse_ip s)) upstreams) resolver_invalid
  let transport = trim_space (setting transport_key values)
  guard (transport == codes "standard" || transport == codes "encrypted") upstream_transport_invalid
  ok tt

abbrev pub put_settings : SettingsMap → SettingsMap → SettingsMap
put_settings values m =
    insert transport_key (setting transport_key values) (insert dns_key (setting dns_key values) m)

-- `writeRuntimeSettings`.
unfoldable pub write_runtime_settings :
    (Bytes → Option Ip) → Bool → SettingsMap → SettingsMap → Result ApplyError SettingsMap
unfolding check_runtime_settings setting
write_runtime_settings parse_ip write_ok values m = do
  check_runtime_settings parse_ip values
  guard write_ok settings_failed
  ok (put_settings values m)

abbrev pub or_unchanged : SettingsMap → Result ApplyError SettingsMap → SettingsMap
or_unchanged m (err e) = m
or_unchanged m (ok n) = n

module _ {L : Type 0} (t : Transport L) (store : SettingsStore t)
    (parse_ip : Bytes → Option Ip) where
  abbrev pub with_settings : SettingsMap → State t → State t
  with_settings m s = record s { transport = store.store_settings m s.transport }

  abbrev pub prepared_again : State t → Option t.State → State t
  prepared_again s none = s
  prepared_again s (some u) = record s { transport = u }

  -- `restoreRuntime`: an error of either step is dropped.
  unfoldable pub restore_runtime : SettingsIo → SettingsMap → State t → State t
  unfolding write_runtime_settings
  restore_runtime io previous s =
      let m = store.settings s.transport in
      let back =
        with_settings (or_unchanged m (write_runtime_settings parse_ip io.restore_ok previous m))
          s in
      prepared_again back (t.before_apply back.transport)

  -- A failure rolls the transport back before the settings; its error is that of `Apply`.
  unfoldable pub finish_replica :
      SettingsIo → SettingsMap → State t × Option ApplyError → State t × Option ApplyError
  unfolding restore_runtime
  finish_replica io previous (s, none) = (s, none)
  finish_replica io previous (s, some e) = (restore_runtime io previous s, some e)

  unfoldable pub install_replica :
      World → SettingsIo → Files → SettingsMap → SettingsMap → State t → State t × Option ApplyError
  unfolding apply_files_locked finish finish_replica
  install_replica w io files previous written s =
      let o = apply_files_locked t w files (with_settings written s) in
      finish_replica io previous (finish t o.state o.prepared o.error)

  unfoldable pub replace_settings :
      World
      → SettingsIo
      → Files
      → SettingsMap
      → State t
      → Option SettingsMap
      → State t × Option ApplyError
  unfolding write_runtime_settings install_replica
  replace_settings w io files runtime s none = (count_failure t s, some settings_failed)
  replace_settings w io files runtime s (some previous) =
      elim (write_runtime_settings parse_ip io.write_ok runtime (store.settings s.transport)) [
        | err e ↦ (count_failure t s, some e)
        | ok written ↦ install_replica w io files previous written s
      ]

  -- `ApplyReplica`.
  unfoldable pub apply_replica :
      World → SettingsIo → Files → SettingsMap → State t → State t × Option ApplyError
  unfolding read_runtime_settings replace_settings validate_replica_files
  apply_replica w io files runtime s = elim (validate_replica_files files) [
    | err e ↦ (count_failure t (count_reload t s), some e)
    | ok u ↦
        replace_settings w io files runtime (count_reload t s)
          (read_runtime_settings io.read_ok (store.settings s.transport))
  ]
