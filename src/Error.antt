-- ===== src/Error.antt =====
-- src/error.rs: the configuration errors that the modelled operations report.
use amalgam.Prelude.Int.{ℤ}
use amalgam.Time.Duration.{Duration}

pub data RuntimeComponent : Type 0 where
  execution backplane recovery plugin : RuntimeComponent

pub data IdentityField : Type 0 where
  cache_name instance_id wire_version : IdentityField

pub data ConfigError : Type 0 where
  supplied_memory_with_builtin_limits : ConfigError
  unstable_memory_storage_epoch : ConfigError
  supplied_marker_memory_requires_controlled_reads : ConfigError
  aliased_marker_memory_storage_epoch : ConfigError
  local_reconciliation_with_external_storage : ConfigError
  unavailable_backplane_continuity : ConfigError
  best_effort_reconciliation_without_backplane : ConfigError
  deadline_out_of_range : ConfigError
  zero_reconciliation_interval : ConfigError
  negative_entry_weight : ℤ → ConfigError
  distributed_without_serializer : ConfigError
  fenced_locker_without_owned_lifetime : ConfigError
  fenced_distributed_without_atomic_writes : ConfigError
  atomic_invalidation_unavailable : ConfigError
  marker_lifecycle_requires_controlled_reads : ConfigError
  marker_snapshot_capability_unavailable : ConfigError
  auto_clone_without_cloner : ConfigError
  missing_runtime : RuntimeComponent → ConfigError
  blank_identity : IdentityField → ConfigError
  invalid_entry_deadlines : ConfigError
  zero_recovery_interval : ConfigError
  invalid_jitter_sample : Duration → Duration → ConfigError
