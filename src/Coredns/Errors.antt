-- ===== src/Coredns/Errors.antt =====
-- The ways in which applying a configuration fails, one for each `return` of an error in
-- internal/coredns/coredns.go.
use faro.Strings.{Bytes}

pub data ApplyError : Type 0 where
  missing_server_block unsafe_hosts_file no_hosts_files : ApplyError
  missing_hosts_file unreferenced_hosts_file : Bytes → ApplyError
  bad_file_count unexpected_file unsafe_file_name too_large : ApplyError
  mkdir_failed engine_rejected engine_unreachable read_dir_failed snapshot_failed : ApplyError
  hash_failed prepare_failed reload_timeout commit_failed : ApplyError
  write_failed remove_failed : Bytes → ApplyError
  render_failed settings_failed : ApplyError
  upstreams_invalid resolver_invalid upstream_transport_invalid : ApplyError
  -- `handleReloadFailure`: what became of the previous configuration, and the cause.
  restored restored_without_hash rollback_unverified : ApplyError → ApplyError
  transport_not_restored : ApplyError → ApplyError
