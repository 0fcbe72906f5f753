-- ===== src/Time/Clock.antt =====
-- src/time.rs: the injected clock. A clock is read through its current timestamp; the manual clock
-- is the one that tests and controlled deployments drive.
use amalgam.Time.Duration.{Duration}
use amalgam.Time.Timestamp.{Timestamp, saturating_add}

pub data ClockTiming : Type 0 where
  real_time controlled : ClockTiming

pub record ManualClock : Type 0 where
  pub ticks : Timestamp

unfoldable pub new : Timestamp → ManualClock
new start = record { ticks = start }

-- The update closure of `fetch_update` always succeeds, so the call is one atomic step.
unfoldable pub advance : ManualClock → Duration → ManualClock
advance c d = record c { ticks = saturating_add c.ticks d }

unfoldable pub set : ManualClock → Timestamp → ManualClock
set c at = record c { ticks = at }

abbrev pub now : ManualClock → Timestamp
now c = c.ticks
