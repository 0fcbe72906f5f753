-- ===== src/Options/Builders.antt =====
-- src/options.rs: the builder methods. Those that change a time budget recompute the budget state
-- under the `overflows` of their own moment.
pub mod Calls
pub mod Deadlines
use amalgam.Prelude.{◌*◌, Bool, true, false, Option, none, some}
use mathlib.Core.Option
use amalgam.Prelude.Int.{ℤ, pos, negsuc}
use amalgam.Prelude.Result.{Result, ok, err, ◌>>=◌}
use amalgam.Time.Duration.{Duration, from_secs}
use amalgam.Time.Timeout.{Timeout}
use amalgam.Error.{ConfigError}
use amalgam.Options.Values.{
  EagerThreshold, EntrySize, EntryWeight, weight, rejected, Priority, never_remove, weight_try_from,
}
use amalgam.Options.Entry.{EntryOptions, options_for}
use amalgam.Options.Budgets.{refresh_budgets}

module _ (o : EntryOptions) where
  pub with_duration : Duration → EntryOptions
  with_duration d = record o { duration = d }

  pub with_memory_duration : Duration → EntryOptions
  with_memory_duration d = record o { memory_duration = some d }

  unfoldable pub with_distributed_duration : Duration → EntryOptions
  with_distributed_duration d = record o { distributed_duration = some d }

  pub with_eager_refresh : Option EagerThreshold → EntryOptions
  with_eager_refresh t = record o { eager_refresh_threshold = t }

  pub with_jitter_max : Duration → EntryOptions
  with_jitter_max d = record o { jitter_max = d }

  unfoldable pub with_fail_safe : Bool → Option Duration → Option Duration → EntryOptions
  with_fail_safe enabled max_duration throttle_duration = record o {
    is_fail_safe_enabled = enabled;
    fail_safe_max_duration = Option.get_or max_duration o.fail_safe_max_duration;
    fail_safe_throttle_duration = Option.get_or throttle_duration o.fail_safe_throttle_duration;
  }

  unfoldable pub with_priority : Priority → EntryOptions
  with_priority p = record o { priority = p }

  unfoldable pub with_size : ℤ → EntryOptions
  with_size (pos n) = record o { entry_size = weight (record { units = n }) }
  with_size (negsuc n) = record o { entry_size = rejected (negsuc n) }

  pub with_entry_weight : EntryWeight → EntryOptions
  with_entry_weight w = record o { entry_size = weight w }

  pub try_with_size : ℤ → Result EntryOptions ConfigError
  try_with_size size = do w ← weight_try_from size; ok (with_entry_weight w)

  pub with_allow_stale_on_read_only : Bool → EntryOptions
  with_allow_stale_on_read_only allow = record o { allow_stale_on_read_only = allow }

  pub with_skip_memory : Bool → Bool → EntryOptions
  with_skip_memory skip_read skip_write = record o {
    skip_memory_read = skip_read;
    skip_memory_write = skip_write;
  }

  pub with_skip_distributed : Bool → Bool → EntryOptions
  with_skip_distributed skip_read skip_write = record o {
    skip_distributed_read = skip_read;
    skip_distributed_write = skip_write;
  }

  pub with_skip_distributed_read_when_stale : Bool → EntryOptions
  with_skip_distributed_read_when_stale skip = record o { skip_distributed_read_when_stale = skip }

  pub with_distributed_fail_safe_max_duration : Duration → EntryOptions
  with_distributed_fail_safe_max_duration max = record o {
    distributed_fail_safe_max_duration = some max;
  }

  pub with_rethrow_distributed_exceptions : Bool → EntryOptions
  with_rethrow_distributed_exceptions rethrow = record o {
    rethrow_distributed_exceptions = rethrow;
  }

  pub with_rethrow_distributed_locker_exceptions : Bool → EntryOptions
  with_rethrow_distributed_locker_exceptions rethrow = record o {
    rethrow_distributed_locker_exceptions = rethrow;
  }

  pub with_rethrow_backplane_exceptions : Bool → EntryOptions
  with_rethrow_backplane_exceptions rethrow = record o { rethrow_backplane_exceptions = rethrow }

  unfoldable pub with_rethrow_serialization_exceptions : Bool → EntryOptions
  with_rethrow_serialization_exceptions rethrow = record o {
    rethrow_serialization_exceptions = rethrow;
  }

  unfoldable pub with_allow_background_backplane_operations : Bool → EntryOptions
  with_allow_background_backplane_operations allow = record o {
    allow_background_backplane_operations = allow;
  }

  pub with_allow_background_distributed_operations : Bool → EntryOptions
  with_allow_background_distributed_operations allow = record o {
    allow_background_distributed_operations = allow;
  }

  pub with_skip_backplane_notifications : Bool → EntryOptions
  with_skip_backplane_notifications skip = record o { skip_backplane_notifications = skip }

  unfoldable pub with_skip_distributed_locker : Bool → EntryOptions
  with_skip_distributed_locker skip = record o { skip_distributed_locker = skip }

  pub with_enable_auto_clone : Bool → EntryOptions
  with_enable_auto_clone enable = record o { enable_auto_clone = enable }

module _ (overflows : Duration → Bool) (o : EntryOptions) where
  pub with_lock_timeout : Timeout → EntryOptions
  with_lock_timeout t = refresh_budgets overflows (record o { lock_timeout = t })

  pub with_memory_lock_timeout : Timeout → EntryOptions
  with_memory_lock_timeout t =
      refresh_budgets overflows (record o { memory_lock_override = some t })

  pub with_distributed_lock_timeout : Timeout → EntryOptions
  with_distributed_lock_timeout t =
      refresh_budgets overflows (record o { distributed_lock_override = some t })

  pub with_factory_timeouts : Timeout → Timeout → Bool → EntryOptions
  with_factory_timeouts soft hard allow_background_completion =
      refresh_budgets overflows (record o {
        factory_soft_timeout = soft;
        factory_hard_timeout = hard;
        allow_timed_out_factory_background_completion = allow_background_completion;
      })

  pub with_distributed_timeouts : Timeout → Timeout → EntryOptions
  with_distributed_timeouts soft hard =
      refresh_budgets overflows
        (record o { distributed_soft_timeout = soft; distributed_hard_timeout = hard })

-- `EntryOptions::tag_defaults`
unfoldable pub tag_defaults : EntryOptions
tag_defaults =
    let o =
      with_distributed_duration (options_for (from_secs (60 * 60))) (from_secs (60 * 60 * 24)) in
    let o = with_fail_safe o true (some (from_secs (60 * 60 * 24 * 10))) none in
    let o = with_allow_background_backplane_operations o false in
    let o = with_rethrow_serialization_exceptions o false in
    let o = with_skip_distributed_locker o true in
    let o = with_priority o never_remove in with_size o (pos 0)
