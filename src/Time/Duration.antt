-- ===== src/Time/Duration.antt =====
-- src/time.rs: conversions between `std::time::Duration` and 100-nanosecond ticks. A duration is
-- its number of nanoseconds; `Duration::new`, `as_secs` and `subsec_nanos` read it in two parts.
pub mod Laws
use amalgam.Prelude.{ℕ, ◌+◌, ◌-◌, ◌*◌, ◌/◌, ◌%◌, ◌^◌, Bool, ◌==◌}
use mathlib.Core.Option
use amalgam.Prelude.Int.{ℤ, pos, pos_part}
use amalgam.Prelude.Word.{i64_max, i64_try_from}

abbrev pub Duration : Type 0
Duration = ℕ

abbrev pub nanos_per_second : ℕ
nanos_per_second = 1_000_000_000

abbrev pub as_secs : Duration → ℕ
as_secs d = d / nanos_per_second

abbrev pub subsec_nanos : Duration → ℕ
subsec_nanos d = d % nanos_per_second

abbrev pub from_parts : ℕ → ℕ → Duration
from_parts secs nanos = secs * nanos_per_second + nanos

abbrev pub from_secs : ℕ → Duration
from_secs secs = from_parts secs 0

abbrev pub is_zero : Duration → Bool
is_zero d = d == 0

-- `Duration::MAX`: u64::MAX seconds and 999,999,999 nanoseconds.
abbrev pub duration_max : Duration
duration_max = from_parts (2 ^ 64 - 1) 999_999_999

abbrev pub ticks_per_second : ℕ
ticks_per_second = 10_000_000

abbrev pub nanos_per_tick : ℕ
nanos_per_tick = 100

-- The tick count of a duration, before any narrowing.
unfoldable pub duration_ticks_wide : Duration → ℕ
duration_ticks_wide d = as_secs d * ticks_per_second + subsec_nanos d / nanos_per_tick

pub duration_to_ticks : Duration → ℤ
duration_to_ticks d = Option.get_or (i64_try_from (pos (duration_ticks_wide d))) i64_max

pub unsigned_ticks_to_duration : ℕ → Duration
unsigned_ticks_to_duration ticks =
    from_parts (ticks / ticks_per_second) (ticks % ticks_per_second * nanos_per_tick)

-- `ticks.max(0) as u64` is the nonnegative part.
pub ticks_to_duration : ℤ → Duration
ticks_to_duration ticks = unsigned_ticks_to_duration (pos_part ticks)
