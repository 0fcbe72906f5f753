-- ===== src/Time/Tests.antt =====
-- src/time.rs: the conversions and the saturating clock arithmetic on concrete values.
use amalgam.Prelude.{◌≡◌, refl}
use amalgam.Prelude.Int.{pos, negsuc, ◌-ℤ◌, ◌+ℤ◌}
use amalgam.Prelude.Word.{i64_try_from}
use amalgam.Prelude.Result.{err}
use amalgam.Time.Duration.{duration_ticks_wide}
use amalgam.Time.Timestamp.{saturating_add, timestamp_from_system_time}
use amalgam.Time.Clock.{new, advance, set, now}

-- A manual clock that is set and advanced by 250 nanoseconds has moved by two ticks.
clock_runs : now (advance (set (new (pos 7)) (pos 40)) 250) ≡ pos 42
unfolding new set advance saturating_add duration_ticks_wide i64_try_from ◌+ℤ◌
clock_runs = refl

-- One nanosecond before the epoch is the tick before it.
before_epoch : timestamp_from_system_time (err 1) ≡ negsuc 0
unfolding timestamp_from_system_time i64_try_from ◌-ℤ◌
before_epoch = refl
