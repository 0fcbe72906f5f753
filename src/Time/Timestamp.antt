-- ===== src/Time/Timestamp.antt =====
-- src/time.rs: `Timestamp`, a signed 64-bit count of ticks since the Unix epoch. A timestamp is the
-- integer itself; `IsI64` (Prelude/Word) says that it is one the
-- source can represent.
pub mod Laws
use amalgam.Prelude.{ℕ, ◌+◌, ◌-◌, ◌/◌, Bool, arith, if◌then◌else◌}
use amalgam.Prelude.Int.{ℤ, pos, negsuc, ◌+ℤ◌, ◌-ℤ◌, ◌≤ℤ◌, ltb_ℤ, leb_ℤ, pos_part, neg_part}
use amalgam.Prelude.Word.{i64_min, i64_max, i64_try_from}
use amalgam.Prelude.Result.{Result, ok, err}
use mathlib.Core.Option
use mathlib.Core.Option.{Option}
use amalgam.Time.Duration
use amalgam.Time.Duration.{
  Duration, duration_ticks_wide, duration_to_ticks, unsigned_ticks_to_duration, nanos_per_tick,
}

abbrev pub Timestamp : Type 0
Timestamp = ℤ

-- `Timestamp::MIN` and `Timestamp::MAX`.
abbrev pub min_timestamp : Timestamp
min_timestamp = i64_min

abbrev pub max_timestamp : Timestamp
max_timestamp = i64_max

unfoldable pub saturating_add : Timestamp → Duration → Timestamp
saturating_add t d = Option.get_or (i64_try_from (t +ℤ pos (duration_ticks_wide d))) i64_max

-- `i64::abs_diff`, for `b < a`.
abbrev pub abs_diff : ℤ → ℤ → ℕ
abs_diff a b = pos_part (a -ℤ b) + neg_part (a -ℤ b)

pub saturating_duration_since : Timestamp → Timestamp → Duration
saturating_duration_since t earlier =
    if leb_ℤ t earlier then 0 else unsigned_ticks_to_duration (abs_diff t earlier)

abbrev pub is_before : Timestamp → Timestamp → Bool
is_before t other = ltb_ℤ t other

-- `LifetimeSpan`: the ticks of a duration, computed once.
abbrev pub LifetimeSpan : Type 0
LifetimeSpan = ℕ

unfoldable pub lifetime_span : Duration → LifetimeSpan
lifetime_span d = duration_ticks_wide d

pub after : LifetimeSpan → Timestamp → Timestamp
after span t = Option.get_or (i64_try_from (t +ℤ pos span)) i64_max

-- `-(ticks as i128)`
abbrev pub negate : ℕ → ℤ
negate n = pos 0 -ℤ pos n

-- `SystemTime::duration_since(UNIX_EPOCH)` is `ok` of the time since the epoch, or `err` of the
-- time before it.
unfoldable pub timestamp_from_system_time : Result Duration Duration → Timestamp
timestamp_from_system_time (ok elapsed) = duration_to_ticks elapsed
timestamp_from_system_time (err before_epoch) =
    let ticks = (before_epoch + (nanos_per_tick - 1)) / nanos_per_tick in
    Option.get_or (i64_try_from (negate ticks)) i64_min
