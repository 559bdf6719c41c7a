-- ===== src/Coredns/Examples.antt =====
-- A small installation: the old set has one hosts file, the new set another one.
use faro.Prelude.{
  nat_eq, ℕ, ◌+◌, ◌-◌, ◌≡◌, refl, ◌⊎◌, ◌≢◌, Bool, true, false, not, ◌||◌, List, [], ◌∷◌, Option,
  none, some, arith, ok, ◌==◌, is_some,
}
use faro.Prelude.Maps.{lookup, HasUniqueKeys}
use faro.Strings.{Bytes, bytes_eq, codes, contains_string, bytes_beq}
use faro.Coredns.Errors.{restored, reload_timeout}
use faro.Coredns.Corefile.{
  Files, corefile_name, file_content, content_or_empty, corefile_host_files,
  validate_generated_files, is_managed_name,
}
use faro.Coredns.Files.{
  Dir, Disk, regular_file, content_of, names_of, file_names, write_order, write_all, snapshot_files,
  stale_managed_files, replace_with_rollback,
}
use faro.Coredns.Apply.{World, Transport, running, State, make_plan, apply}
use faro.Domains.{Ip}
use faro.Policy.Settings.{SettingsMap}
use faro.Coredns.Replica.{
  dns_key, transport_key, SettingsStore, SettingsIo, read_runtime_settings, check_runtime_settings,
  apply_replica,
}
use faro.Coredns.Restored.{IsRestored, apply_replica_failure-IsRestored}
use faro.Coredns.Order.{write_prefix_consistent}
use faro.Coredns.Atomic.{IsUndone, apply_failure-IsUndone}
use faro.Coredns.Success.{installed, apply_success}
use faro.Coredns.Complete.{apply_complete}
use faro.Coredns.Names.{IsHostName, corefile_host_files_safe, validate_generated_files_closed}

abbrev old_corefile : Bytes
old_corefile = codes ".:53 {\n hosts /etc/coredns/protection-1.hosts {\n }\n forward . 1.1.1.1\n}\n"

abbrev new_corefile : Bytes
new_corefile = codes ".:53 {\n hosts /etc/coredns/protection-2.hosts {\n }\n forward . 9.9.9.9\n}\n"

abbrev new_hosts : Bytes
new_hosts = codes "protection-2.hosts"

abbrev new_files : Files
new_files = (codes "Corefile", new_corefile) ∷ (new_hosts, codes "0.0.0.0 ads.example\n") ∷ []

abbrev old_dir : Dir
old_dir =
    (codes "Corefile", regular_file old_corefile)
    ∷ (codes "protection-1.hosts", regular_file [])
    ∷ (codes "notes.txt", regular_file (codes "mine"))
    ∷ []

abbrev good_disk : Disk
good_disk = record {
  read_dir_ok = true;
  write_ok = λ n. true;
  remove_ok = λ n. true;
  restore_ok = λ n. true;
  damage = λ n. none;
}

-- The hash of a Corefile is its text; the engine reports what the directory holds, unless it refuses
-- new configurations.
abbrev world : Bool → World
world accepts = record {
  disk = good_disk;
  mkdir_ok = true;
  engine_accepts = λ f. true;
  live = running old_corefile;
  corefile_hash = λ c. some c;
  wait_for_hash = λ d h. accepts || not (h == new_corefile);
}

counter_restores : (n u : ℕ) → some (n + 1) ≡ some u → (v : ℕ) × (some (u - 1) ≡ some v) × (v ≡ n)
counter_restores n u e = (n, ground arith, refl)

-- The state of the transport is a generation number.
abbrev counter : Transport ℕ
counter = record {
  State = ℕ;
  live = λ n. n;
  before_apply = λ n. some (n + 1);
  rollback_apply = λ n. some (n - 1);
  commit_apply = λ n. some n;
  rollback_restores = counter_restores;
}

abbrev start : State counter
start = record {
  dir = old_dir;
  bootstrapped = true;
  reload_total = 0;
  reload_failed_total = 0;
  transport = 7;
}

unique_dir : HasUniqueKeys old_dir
unfolding bytes_beq
unique_dir = ((refl, (refl, tt)), ((refl, tt), (tt, tt)))

unique_files : HasUniqueKeys new_files
unfolding bytes_beq
unique_files = ((refl, tt), (tt, tt))

corefile_read : some (file_content corefile_name new_files) ≡ some new_corefile
unfolding file_content corefile_name bytes_beq
corefile_read = refl

passes : validate_generated_files new_files ≡ ok tt
unfolding validate_generated_files bytes_beq
passes = refl

-- All that a run computes through.
installation : Unit {0}
unfolding apply make_plan validate_generated_files bytes_beq stale_managed_files snapshot_files
    file_names is_managed_name replace_with_rollback write_all content_of
installation = tt

accepted : (apply counter (world true) (ok new_files) start).1 ≡ none
unfolding installation
accepted = refl

refused : (apply counter (world false) (ok new_files) start).1 ≡ some (restored reload_timeout)
unfolding installation
refused = refl

-- The old hosts file is gone, and a file that is not Faro's is left alone.
new_contents :
    let d = (apply counter (world true) (ok new_files) start).0.dir in
    (content_of (codes "protection-1.hosts") d ≡ none)
    × (content_of (codes "notes.txt") d ≡ some (codes "mine"))
unfolding installation
new_contents = (refl, refl)

apply_failure-IsUndone_example :
    IsUndone counter start (apply counter (world false) (ok new_files) start).0
apply_failure-IsUndone_example =
    (apply_failure-IsUndone counter (world false) (ok new_files) start (restored reload_timeout)
      (λ n. refl) refused).0

apply_success_example :
    content_of (codes "protection-1.hosts") (apply counter (world true) (ok new_files) start).0.dir
    ≡ installed new_files old_dir (codes "protection-1.hosts")
apply_success_example =
    (apply_success counter (world true) new_files start new_corefile unique_dir accepted
        corefile_read).0
      (codes "protection-1.hosts")

apply_complete_example :
    let d = (apply counter (world true) (ok new_files) start).0.dir in
    (names : List Bytes) × (corefile_host_files (content_or_empty (content_of corefile_name d))
      ≡ ok names)
    × (names ≢ [])
    × ((n : Bytes)
        → contains_string n names ≡ true
        → content_of n d ≡ some (file_content n new_files))
apply_complete_example =
    apply_complete counter (world true) new_files start new_corefile unique_dir accepted
      corefile_read

write_prefix_consistent_example :
    let d = (write_all good_disk new_files (new_hosts ∷ []) old_dir).0 in
    (content_of corefile_name d ≡ content_of corefile_name old_dir)
    ⊎ ((n : Bytes)
        → contains_string n (names_of new_files) ≡ true
        → content_of n d ≡ some (file_content n new_files))
unfolding installation write_order
write_prefix_consistent_example =
    write_prefix_consistent good_disk new_files (new_hosts ∷ []) (codes "Corefile" ∷ []) old_dir
      unique_files refl refl

corefile_host_files_safe_example : IsHostName new_hosts
unfolding installation
corefile_host_files_safe_example =
    corefile_host_files_safe new_corefile (new_hosts ∷ []) refl new_hosts refl

validate_generated_files_closed_example :
    (names : List Bytes) × (corefile_host_files (file_content corefile_name new_files) ≡ ok names)
    × (names ≢ [])
    × ((n : Bytes) → contains_string n names ≡ true → is_some (lookup n new_files) ≡ true)
    × ((n : Bytes)
        → contains_string n (names_of new_files) ≡ true
        → (n ≡ corefile_name) ⊎ (contains_string n names ≡ true))
validate_generated_files_closed_example = validate_generated_files_closed new_files passes

counted_back : (t u : SettingsMap × ℕ) → some (t.0, t.1 + 1) ≡ some u → some (u.0, u.1 - 1) ≡ some t
counted_back t u e = ground arith

kept_settings :
    (m n : SettingsMap) (i j : ℕ)
    → ◌≡◌ {A = Option (SettingsMap × ℕ)} (some (m, i)) (some (n, j))
    → n ≡ m
kept_settings m n i j e = ground arith

-- A transport that carries the settings with the generation number.
abbrev replica_transport : Transport ℕ
replica_transport = record {
  State = SettingsMap × ℕ;
  live = λ u. u.1;
  before_apply = λ u. some (u.0, u.1 + 1);
  rollback_apply = λ u. some (u.0, u.1 - 1);
  commit_apply = λ u. some u;
  rollback_restores = λ t u e. (t, counted_back t u e, refl);
}

abbrev replica_store : SettingsStore replica_transport
replica_store = record {
  settings = λ u. u.0;
  store_settings = λ m u. (m, u.1);
  settings-store_settings = λ m u. refl;
  settings-before_apply = λ u v e. kept_settings u.0 v.0 (u.1 + 1) v.1 e;
  settings-rollback_apply = λ u v e. kept_settings u.0 v.0 (u.1 - 1) v.1 e;
}

abbrev own_settings : SettingsMap
own_settings = (dns_key, codes "1.1.1.1") ∷ (transport_key, codes "standard") ∷ []

abbrev replica0 : State replica_transport
replica0 = record {
  dir = old_dir;
  bootstrapped = true;
  reload_total = 0;
  reload_failed_total = 0;
  transport = (own_settings, 7);
}

-- The controller asks for the encrypted transport.
abbrev sent_settings : SettingsMap
sent_settings = (dns_key, codes "9.9.9.9") ∷ (transport_key, codes "encrypted") ∷ []

abbrev fine_io : SettingsIo
fine_io = record { read_ok = true; write_ok = true; restore_ok = true }

abbrev any_address : Bytes → Option Ip
any_address s = some (record { is_v4 = true; text = s })

own_settings_read : read_runtime_settings true own_settings ≡ some own_settings
unfolding read_runtime_settings bytes_beq
own_settings_read = refl

own_settings_fine : check_runtime_settings any_address own_settings ≡ ok tt
unfolding check_runtime_settings bytes_beq
own_settings_fine = refl

replica_refused :
    (apply_replica replica_transport replica_store any_address
      (world false)
      fine_io
      new_files
      sent_settings
      replica0).1
    ≡ some (restored reload_timeout)
unfolding installation apply_replica bytes_beq
replica_refused = refl

apply_replica_failure-IsRestored_example :
    IsRestored replica_transport replica_store any_address replica0
      (apply_replica replica_transport replica_store any_address
        (world false)
        fine_io
        new_files
        sent_settings
        replica0).0
apply_replica_failure-IsRestored_example =
    apply_replica_failure-IsRestored replica_transport replica_store any_address (world false)
      fine_io new_files sent_settings own_settings replica0 (restored reload_timeout) (λ n. refl)
      refl own_settings_read own_settings_fine replica_refused
