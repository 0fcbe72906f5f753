-- ===== src/Circuit.antt =====
-- src/circuit.rs: the circuit breaker in front of the distributed cache and the backplane. A
-- breaker is its open duration and one atomic cell; a method returns the new breaker beside its
-- result. `Circuit/Threads` runs the same atomic steps under arbitrary interleavings.
mod Tests
pub mod Laws
pub mod Threads
use amalgam.Prelude.{ℕ, ◌+◌, Bool, true, false, not, ◌||◌, if◌then◌else◌, ◌==◌}
use amalgam.Prelude.Int.{ℤ, pos, negsuc, ◌+ℤ◌, ltb_ℤ, leb_ℤ, max_ℤ, min_ℤ, eqb_ℤ}
use amalgam.Prelude.Word.{i64_min, i64_max}
use amalgam.Time.Duration.{Duration, is_zero}
use amalgam.Time.Timestamp.{Timestamp, saturating_add}

-- `CLOSED`, a sentinel below every deadline that a trip can store.
abbrev pub closed_cell : ℤ
closed_cell = i64_min

pub data CircuitCheck : Type 0 where
  closed : CircuitCheck
  open_until : Timestamp → CircuitCheck
  closed_after_cooldown : CircuitCheck

pub record CircuitBreaker : Type 0 where
  pub open_duration : Duration
  pub reopen_at : ℤ

pub new : Duration → CircuitBreaker
new open_duration = record { open_duration = open_duration; reopen_at = closed_cell }

abbrev pub is_disabled : CircuitBreaker → Bool
is_disabled b = is_zero b.open_duration

pub is_closed_without_clock : CircuitBreaker → Bool
is_closed_without_clock b = is_disabled b || eqb_ℤ b.reopen_at closed_cell

-- What one pass of the loop in `check` concludes from the loaded cell.
pub data Admission : Type 0 where
  answer : CircuitCheck → Admission
  try_close : Admission

pub admission : ℤ → Timestamp → Admission
admission reopen now =
    if eqb_ℤ reopen closed_cell
    then answer closed
    else if ltb_ℤ now reopen
    then answer (open_until reopen)
    else try_close

-- `compare_exchange`: the new cell, and whether the exchange took place.
pub compare_exchange : ℤ → ℤ → ℤ → ℤ × Bool
compare_exchange cell expected new = if eqb_ℤ cell expected then (new, true) else (cell, false)

pub settle : CircuitBreaker → Admission → CircuitBreaker × CircuitCheck
settle b (answer c) = (b, c)
settle b try_close = (
  record b { reopen_at = (compare_exchange b.reopen_at b.reopen_at closed_cell).0 },
  closed_after_cooldown,
)

-- `check` with no other thread between its load and its exchange, so that the first exchange wins.
pub check : CircuitBreaker → Timestamp → CircuitBreaker × CircuitCheck
unfolding settle
check b now = if is_disabled b then (b, closed) else settle b (admission b.reopen_at now)

abbrev pub is_open : CircuitCheck → Bool
is_open (open_until _) = true
is_open closed = false
is_open closed_after_cooldown = false

pub is_closed : CircuitBreaker → Timestamp → CircuitBreaker × Bool
is_closed b now = let (b', c) = check b now in (b', not (is_open c))

-- `i64::saturating_add(1)`
abbrev pub next_tick : Timestamp → Timestamp
next_tick now = min_ℤ (now +ℤ pos 1) i64_max

-- The end of the window that a trip at `now` opens.
pub window_end : Duration → Timestamp → Timestamp
window_end open_duration now = max_ℤ (saturating_add now open_duration) (next_tick now)

pub trip : CircuitBreaker → Timestamp → CircuitBreaker × Bool
trip b now = if is_disabled b then (b, false) else (
  record b { reopen_at = max_ℤ b.reopen_at (window_end b.open_duration now) },
  eqb_ℤ b.reopen_at closed_cell,
)

pub close : CircuitBreaker → CircuitBreaker × Bool
close b =
    if eqb_ℤ b.reopen_at closed_cell
    then (b, false)
    else (record b { reopen_at = closed_cell }, not (eqb_ℤ b.reopen_at closed_cell))
