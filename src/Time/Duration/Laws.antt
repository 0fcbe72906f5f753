-- ===== src/Time/Duration/Laws.antt =====
-- The tick conversions of src/time.rs against division by 100 nanoseconds.
use amalgam.Prelude.{ℕ, ◌-◌, ◌*◌, ◌/◌, ◌≤◌, ◌^◌, ◌≡◌, arith}
use amalgam.Prelude.Int.{ℤ, pos, pos_part, ◌≤ℤ◌}
use amalgam.Prelude.Word.{i64_max, i64_try_from_cases}
use amalgam.Time.Duration.{
  Duration, duration_ticks_wide, duration_to_ticks, unsigned_ticks_to_duration, ticks_to_duration,
  nanos_per_tick,
}

-- Splitting off the seconds gives the same tick count as dividing the nanoseconds by 100.
pub duration_ticks_wide-div : (d : Duration) → duration_ticks_wide d ≡ d / nanos_per_tick
unfolding duration_ticks_wide
duration_ticks_wide-div d = omega arith

pub unsigned_ticks_to_duration-mul : (t : ℕ) → unsigned_ticks_to_duration t ≡ t * nanos_per_tick
unfolding unsigned_ticks_to_duration
unsigned_ticks_to_duration-mul t = omega arith

-- Every nonnegative representable tick count survives the way to a duration and back.
pub duration_to_ticks-ticks_to_duration :
    (t : ℤ) → pos 0 ≤ℤ t → t ≤ℤ i64_max → duration_to_ticks (ticks_to_duration t) ≡ t
unfolding duration_to_ticks ticks_to_duration
duration_to_ticks-ticks_to_duration t lo hi = ground (
  arith,
  duration_ticks_wide-div (ticks_to_duration t),
  unsigned_ticks_to_duration-mul (pos_part t),
  i64_try_from_cases (pos (duration_ticks_wide (ticks_to_duration t))),
)

-- The way to ticks and back rounds a duration down to whole ticks, unless its ticks exceed the
-- range.
pub ticks_to_duration-duration_to_ticks :
    (d : Duration)
    → d / nanos_per_tick ≤ 2 ^ 63 - 1
    → ticks_to_duration (duration_to_ticks d) ≡ d / nanos_per_tick * nanos_per_tick
unfolding duration_to_ticks ticks_to_duration
ticks_to_duration-duration_to_ticks d h = ground (
  arith,
  duration_ticks_wide-div d,
  i64_try_from_cases (pos (duration_ticks_wide d)),
  unsigned_ticks_to_duration-mul (d / nanos_per_tick),
)
