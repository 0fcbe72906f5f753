-- ===== src/Options/Entry.antt =====
-- src/options.rs: `EntryOptions`, its defaults, and its accessors. An accessor that returns a field
-- as it stands is the field.
use amalgam.Prelude.{◌*◌, Bool, true, false, Option, none, some}
use mathlib.Core.Option
use amalgam.Prelude.Result.{Result, ok, err}
use amalgam.Time.Duration.{Duration, from_secs}
use amalgam.Time.Timeout.{Timeout, infinite}
use amalgam.Error.{ConfigError, negative_entry_weight}
use amalgam.Options.Values.{
  EagerThreshold, Priority, normal, EntrySize, EntryWeight, unspecified, weight, rejected,
  BudgetState, valid, inline,
}

pub record EntryOptions : Type 0 where
  pub budgets : BudgetState
  pub duration : Duration
  pub memory_duration : Option Duration
  pub distributed_duration : Option Duration
  pub eager_refresh_threshold : Option EagerThreshold
  pub jitter_max : Duration
  pub lock_timeout : Timeout
  pub memory_lock_override : Option Timeout
  pub distributed_lock_override : Option Timeout
  pub is_fail_safe_enabled : Bool
  pub fail_safe_max_duration : Duration
  pub fail_safe_throttle_duration : Duration
  pub distributed_fail_safe_max_duration : Option Duration
  pub factory_soft_timeout : Timeout
  pub factory_hard_timeout : Timeout
  pub allow_timed_out_factory_background_completion : Bool
  pub skip_memory_read : Bool
  pub skip_memory_write : Bool
  pub priority : Priority
  pub entry_size : EntrySize
  pub allow_stale_on_read_only : Bool
  pub distributed_soft_timeout : Timeout
  pub distributed_hard_timeout : Timeout
  pub allow_background_distributed_operations : Bool
  pub rethrow_distributed_exceptions : Bool
  pub rethrow_distributed_locker_exceptions : Bool
  pub rethrow_serialization_exceptions : Bool
  pub skip_distributed_read : Bool
  pub skip_distributed_write : Bool
  pub skip_distributed_read_when_stale : Bool
  pub skip_distributed_locker : Bool
  pub enable_auto_clone : Bool
  pub skip_backplane_notifications : Bool
  pub allow_background_backplane_operations : Bool
  pub rethrow_backplane_exceptions : Bool

abbrev pub default_options : EntryOptions
default_options = record {
  budgets = valid inline;
  duration = from_secs 30;
  memory_duration = none;
  distributed_duration = none;
  eager_refresh_threshold = none;
  jitter_max = 0;
  lock_timeout = infinite;
  memory_lock_override = none;
  distributed_lock_override = none;
  is_fail_safe_enabled = false;
  fail_safe_max_duration = from_secs (60 * 60 * 24);
  fail_safe_throttle_duration = from_secs 30;
  distributed_fail_safe_max_duration = none;
  factory_soft_timeout = infinite;
  factory_hard_timeout = infinite;
  allow_timed_out_factory_background_completion = true;
  skip_memory_read = false;
  skip_memory_write = false;
  priority = normal;
  entry_size = unspecified;
  allow_stale_on_read_only = false;
  distributed_soft_timeout = infinite;
  distributed_hard_timeout = infinite;
  allow_background_distributed_operations = false;
  rethrow_distributed_exceptions = false;
  rethrow_distributed_locker_exceptions = false;
  rethrow_serialization_exceptions = true;
  skip_distributed_read = false;
  skip_distributed_write = false;
  skip_distributed_read_when_stale = false;
  skip_distributed_locker = false;
  enable_auto_clone = false;
  skip_backplane_notifications = false;
  allow_background_backplane_operations = true;
  rethrow_backplane_exceptions = false;
}

-- `EntryOptions::new`
abbrev pub options_for : Duration → EntryOptions
options_for d = record default_options { duration = d }

-- The specific lock budgets fall back to the general one.
abbrev pub memory_lock_timeout : EntryOptions → Timeout
memory_lock_timeout o = Option.get_or o.memory_lock_override o.lock_timeout

abbrev pub distributed_lock_timeout : EntryOptions → Timeout
distributed_lock_timeout o = Option.get_or o.distributed_lock_override o.lock_timeout

abbrev pub read_size : EntrySize → Result (Option EntryWeight) ConfigError
read_size unspecified = ok none
read_size (weight w) = ok (some w)
read_size (rejected z) = err (negative_entry_weight z)

unfoldable pub size : EntryOptions → Result (Option EntryWeight) ConfigError
size o = read_size o.entry_size
