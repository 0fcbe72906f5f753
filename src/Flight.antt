-- ===== src/Flight.antt =====
-- src/single_flight.rs: one computation shared by the callers that ask for its key. `Flight/Table`
-- has the critical sections of a table of flights, `Flight/Run` their interleavings.
pub mod Table
pub mod Run
mod Tests
use amalgam.Prelude.{
  ℕ, ◌+◌, ◌-◌, Bool, true, false, not, Option, none, some, [], ◌==◌, ◌&&◌, ltb, if◌then◌else◌,
}
use amalgam.Prelude.Text.{Text}
use amalgam.Prelude.Result.{Result, ok, err}

-- `FactoryCancellationReason` of src/error.rs.
pub data FactoryCancellationReason : Type 0 where
  caller_cancelled caller_dropped soft_timeout hard_timeout : FactoryCancellationReason
  cache_shutdown lease_lost scope_finished : FactoryCancellationReason

-- The errors that a flight tells apart; `other` is every other one.
pub data FlightError {ℓ} (E : Type ℓ) : Type ℓ where
  lost_lease : FlightError E
  operation_cancelled : FactoryCancellationReason → FlightError E
  other : E → FlightError E

-- `Terminal`: whether the payload of a panic is still there to take.
pub data Terminal {ℓ} (T E : Type ℓ) : Type ℓ where
  owned shared : Result T (FlightError E) → Terminal T E
  panicked : Bool → Terminal T E
  cancelled : FactoryCancellationReason → Terminal T E

pub data Completion {ℓ} (T E : Type ℓ) : Type ℓ where
  given copied : Result T (FlightError E) → Completion T E
  panicked_here follower_panicked : Completion T E

-- `State`: the work of a pending flight is the caller's future, of which only the outcome matters.
pub data FlightState {ℓ} (T E : Type ℓ) : Type ℓ where
  starting pending polling : FlightState T E
  completed : Terminal T E → FlightState T E
  finished : FlightState T E

-- How far the thread that polls a flight has come: in the caller's code, or in `complete`.
pub data Stage {ℓ} (T E : Type ℓ) : Type ℓ where
  idle running : Stage T E
  settled retired resolved : Terminal T E → Stage T E

-- `Flight`, with its cell, the reason of its request and the stage of its poller. `withdrawals`
-- counts the cancellations that have passed the cell.
pub record Flight {ℓ} (T E : Type ℓ) : Type ℓ where
  pub key : Text
  pub subscribers : ℕ
  pub state : FlightState T E
  pub runnable : Bool
  pub reason : Option FactoryCancellationReason
  pub stage : Stage T E
  pub withdrawals : ℕ

-- Whether it was polled before, which only decides whether the work is polled at once, is left out.
pub record Subscription : Type 0 where
  pub flight : ℕ
  pub leader : Bool
  pub consumed : Bool

-- `cancel_with`: the first reason stays.
abbrev first_reason :
    Option FactoryCancellationReason → FactoryCancellationReason → FactoryCancellationReason
first_reason none reason = reason
first_reason (some earlier) reason = earlier

module _ {ℓ} {T E : Type ℓ} where
  unfoldable pub launched : Text → Flight T E
  launched key = record {
    key = key;
    subscribers = 1;
    state = starting;
    runnable = true;
    reason = none;
    stage = idle;
    withdrawals = 0;
  }

  -- What stands for a flight that was not made.
  unfoldable pub unlaunched : Flight T E
  unlaunched = record {
    key = [];
    subscribers = 0;
    state = finished;
    runnable = false;
    reason = none;
    stage = idle;
    withdrawals = 0;
  }

  abbrev started : Flight T E → FlightState T E → FlightState T E
  started f starting = pending
  started f pending = pending
  started f polling = polling
  started f (completed t) = completed t
  started f finished = finished

  unfoldable pub install : Flight T E → Flight T E
  install f = record f { state = started f f.state }

  -- `poll_work` until the caller's future is polled.
  abbrev begun : Flight T E → FlightState T E → Flight T E
  begun f starting = f
  begun f pending =
      if f.runnable then record f { state = polling; stage = running; runnable = false } else f
  begun f polling = f
  begun f (completed t) = f
  begun f finished = f

  unfoldable pub begin_poll : Flight T E → Flight T E
  begin_poll f = begun f f.state

  -- How the poll of the future ends: with a result, with a panic, or not yet.
  abbrev ended : Flight T E → Terminal T E → Stage T E → Flight T E
  ended f t idle = f
  ended f t running = record f { stage = settled t }
  ended f t (settled u) = f
  ended f t (retired u) = f
  ended f t (resolved u) = f

  unfoldable pub end_poll : Flight T E → Terminal T E → Flight T E
  end_poll f t = ended f t f.stage

  -- The look at the reason, the return to `Pending` and the second look are one step. In the source
  -- a request that comes in between is seen by the second look, which cancels the flight.
  abbrev suspended : Flight T E → Stage T E → Option FactoryCancellationReason → Flight T E
  suspended f idle reason = f
  suspended f running (some reason) = record f { stage = settled (cancelled reason) }
  suspended f running none = record f { state = pending; stage = idle }
  suspended f (settled u) reason = f
  suspended f (retired u) reason = f
  suspended f (resolved u) reason = f

  unfoldable pub suspend_poll : Flight T E → Flight T E
  suspend_poll f = suspended f f.stage f.reason

  -- `complete`: the terminal state that the reason of the request leaves.
  unfoldable pub decided : Option FactoryCancellationReason → Terminal T E → Terminal T E
  decided none t = t
  decided (some lease_lost) (owned (err lost_lease)) = owned (err lost_lease)
  decided (some reason) t = cancelled reason

  abbrev chosen_at : Flight T E → Stage T E → Flight T E
  chosen_at f idle = f
  chosen_at f running = f
  chosen_at f (settled t) = f
  chosen_at f (retired t) = record f { stage = resolved (decided f.reason t) }
  chosen_at f (resolved t) = f

  unfoldable pub resolve : Flight T E → Flight T E
  unfolding decided
  resolve f = chosen_at f f.stage

  abbrev pub shared_among : ℕ → Terminal T E → Terminal T E
  shared_among n (owned r) = if ltb 1 n then shared r else owned r
  shared_among n (shared r) = shared r
  shared_among n (panicked p) = panicked p
  shared_among n (cancelled reason) = cancelled reason

  abbrev published_at : Flight T E → Stage T E → Flight T E
  published_at f idle = f
  published_at f running = f
  published_at f (settled t) = f
  published_at f (retired t) = f
  published_at f (resolved t) = record f {
    state = if f.subscribers == 0 then finished else completed (shared_among f.subscribers t);
    stage = idle;
  }

  unfoldable pub publish : Flight T E → Flight T E
  publish f = published_at f f.stage

  unfoldable pub cancel_with : Flight T E → FactoryCancellationReason → Flight T E
  cancel_with f reason = record f { reason = some (first_reason f.reason reason) }

  abbrev withdrawn : FactoryCancellationReason → FlightState T E → FlightState T E
  withdrawn reason starting = completed (cancelled reason)
  withdrawn reason pending = completed (cancelled reason)
  withdrawn reason polling = polling
  withdrawn reason (completed t) = completed t
  withdrawn reason finished = finished

  abbrev cell_cancelled :
      Flight T E → FactoryCancellationReason → Option FactoryCancellationReason → Flight T E
  cell_cancelled f reason none = f
  cell_cancelled f reason (some earlier) = record f {
    state = withdrawn reason f.state;
    withdrawals = f.withdrawals + 1;
  }

  -- The cell's part of `cancel`, after `cancel_with` and before the entry is removed.
  unfoldable pub cancel_cell : Flight T E → FactoryCancellationReason → Flight T E
  cancel_cell f reason = cell_cancelled f reason f.reason

  unfoldable pub wake : Flight T E → Flight T E
  wake f = record f { runnable = true }

-- What a poll of a subscription answers; `misuse` is the panic of the source.
pub data Answer {ℓ} (T E : Type ℓ) : Type ℓ where
  waiting misuse : Answer T E
  answers : Completion T E → Answer T E

module _ {ℓ} {T E : Type ℓ} where
  abbrev pub panic_answer : Bool → Bool → Completion T E × Bool
  panic_answer false present = (follower_panicked, present)
  panic_answer true false = (follower_panicked, false)
  panic_answer true true = (panicked_here, false)

  -- `try_complete`: the answer to the leader or a follower, and the state it leaves.
  unfoldable pub take_answer : Bool → FlightState T E → Answer T E × FlightState T E
  take_answer leader starting = (waiting, starting)
  take_answer leader pending = (waiting, pending)
  take_answer leader polling = (waiting, polling)
  take_answer leader (completed (owned r)) = (answers (given r), finished)
  take_answer leader (completed (shared r)) = (answers (copied r), completed (shared r))
  take_answer leader (completed (panicked present)) =
      let (answer, left) = panic_answer leader present in
      (answers answer, completed (panicked left))
  take_answer leader (completed (cancelled reason)) =
      (answers (given (err (operation_cancelled reason))), completed (cancelled reason))
  take_answer leader finished = (misuse, finished)

  abbrev abandoned : FlightState T E → FlightState T E
  abandoned starting = starting
  abandoned pending = pending
  abandoned polling = polling
  abandoned (completed t) = finished
  abandoned finished = finished

  -- `Drop for Subscription`, but for `abandon_start`, which is a section of its own.
  unfoldable pub unsubscribe : Flight T E → Flight T E
  unsubscribe f = record f {
    subscribers = f.subscribers - 1;
    state = if f.subscribers - 1 == 0 then abandoned f.state else f.state;
    runnable = true;
  }

  abbrev pub is_starting : FlightState T E → Bool
  is_starting starting = true
  is_starting pending = false
  is_starting polling = false
  is_starting (completed t) = false
  is_starting finished = false
