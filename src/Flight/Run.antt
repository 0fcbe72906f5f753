-- ===== src/Flight/Run.antt =====
-- src/single_flight.rs: the interleavings of the callers, pollers and cancellers of a table.
pub mod Local
pub mod Invariant
pub mod Sections
pub mod Callers
pub mod Subscribers
pub mod Safety
use amalgam.Prelude.{ℕ, Bool}
use amalgam.Prelude.Text.{Text}
use amalgam.Flight.{
  Flight, FactoryCancellationReason, Terminal, install, begin_poll, end_poll, suspend_poll, resolve,
  publish, cancel_with, cancel_cell, wake,
}
use amalgam.Flight.Table.{
  Flights, with_flight, acquire, retire, withdraw, abandon_start, try_complete, drop_subscription,
}

-- The sections of one flight only, each under the lock of its cell or in the caller's code.
pub data CellAction {ℓ} (T E : Type ℓ) : Type ℓ where
  installs begins suspends resolves publishes wakes : CellAction T E
  ends : Terminal T E → CellAction T E
  cancels_request cancels_cell : FactoryCancellationReason → CellAction T E

pub data Action {ℓ} (T E : Type ℓ) : Type ℓ where
  acquires : Text → Action T E
  on_cell : ℕ → CellAction T E → Action T E
  retires withdraws abandons : ℕ → Action T E
  completes drops : ℕ → Action T E

module _ {ℓ} {T E : Type ℓ} where
  unfoldable pub act : CellAction T E → Flight T E → Flight T E
  unfolding install begin_poll suspend_poll resolve publish wake end_poll cancel_with cancel_cell
  act installs f = install f
  act begins f = begin_poll f
  act suspends f = suspend_poll f
  act resolves f = resolve f
  act publishes f = publish f
  act wakes f = wake f
  act (ends t) f = end_poll f t
  act (cancels_request reason) f = cancel_with f reason
  act (cancels_cell reason) f = cancel_cell f reason

  unfoldable pub perform : Action T E → Flights T E → Flights T E
  unfolding act acquire retire withdraw abandon_start try_complete drop_subscription
  perform (acquires key) t = acquire t key
  perform (on_cell f action) t = with_flight t f (act action (t.flights f))
  perform (retires f) t = retire t f
  perform (withdraws f) t = withdraw t f
  perform (abandons f) t = abandon_start t f
  perform (completes n) t = (try_complete t n).0
  perform (drops n) t = drop_subscription t n

-- The states of a table that starts empty, whatever the order of its sections.
pub data Reach {ℓ} {T E : Type ℓ} : Flights T E → Type ℓ where
  start : Reach amalgam.Flight.Table.new
  step : (action : Action T E) (t : Flights T E) → Reach t → Reach (perform action t)
