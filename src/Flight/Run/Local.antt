-- ===== src/Flight/Run/Local.antt =====
-- src/single_flight.rs: what each section of one flight keeps.
use amalgam.Prelude.{◌≡◌, Bool, true, false, not, ◌==◌, ◌&&◌, ◌||◌, ltb, leb, arith}
use amalgam.Prelude.Maps.{is_none}
use amalgam.Flight.{
  Flight, owned, shared, panicked, cancelled, FlightState, starting, pending, polling, completed,
  finished, Stage, idle, running, settled, retired, resolved, is_starting, install, begin_poll,
  suspend_poll, resolve, publish, wake, end_poll, cancel_with, cancel_cell, decided,
}
use amalgam.Flight.Run.{
  CellAction, installs, begins, suspends, resolves, publishes, wakes, ends, cancels_request,
  cancels_cell, act,
}

abbrev pub is_finished {ℓ} : {T E : Type ℓ} → FlightState T E → Bool
is_finished starting = false
is_finished pending = false
is_finished polling = false
is_finished (completed t) = false
is_finished finished = true

abbrev pub is_owned {ℓ} : {T E : Type ℓ} → FlightState T E → Bool
is_owned starting = false
is_owned pending = false
is_owned polling = false
is_owned (completed (owned r)) = true
is_owned (completed (shared r)) = false
is_owned (completed (panicked p)) = false
is_owned (completed (cancelled reason)) = false
is_owned finished = false

-- Before its poller has taken the entry away.
abbrev pub before_retirement {ℓ} : {T E : Type ℓ} → Stage T E → Bool
before_retirement idle = false
before_retirement running = true
before_retirement (settled t) = true
before_retirement (retired t) = false
before_retirement (resolved t) = false

-- A flight that a caller may still join: unfinished, or cancelled and perhaps not yet taken away.
abbrev open_state {ℓ} : {T E : Type ℓ} → FlightState T E → Stage T E → Bool → Bool
open_state starting s withdrawn = true
open_state pending s withdrawn = true
open_state polling s withdrawn = before_retirement s
open_state (completed (owned r)) s withdrawn = false
open_state (completed (shared r)) s withdrawn = false
open_state (completed (panicked p)) s withdrawn = false
open_state (completed (cancelled reason)) s withdrawn = withdrawn
open_state finished s withdrawn = withdrawn

-- A computation that is under way and was not cancelled.
abbrev active_state {ℓ} : {T E : Type ℓ} → FlightState T E → Stage T E → Bool → Bool
active_state starting s uncancelled = true
active_state pending s uncancelled = uncancelled
active_state polling s uncancelled = before_retirement s && uncancelled
active_state (completed t) s uncancelled = false
active_state finished s uncancelled = false

-- A flight is polled by one thread exactly while it is in the state for it.
abbrev staged {ℓ} : {T E : Type ℓ} → FlightState T E → Stage T E → Bool
staged starting idle = true
staged pending idle = true
staged (completed t) idle = true
staged finished idle = true
staged polling running = true
staged polling (settled t) = true
staged polling (retired t) = true
staged polling (resolved t) = true
staged polling idle = false
staged starting s = false
staged pending s = false
staged (completed t) s = false
staged finished s = false

module _ {ℓ} {T E : Type ℓ} where
  abbrev pub was_withdrawn : Flight T E → Bool
  was_withdrawn f = ltb 0 f.withdrawals

  abbrev pub is_open : Flight T E → Bool
  is_open f = open_state f.state f.stage (was_withdrawn f)

  abbrev pub is_active : Flight T E → Bool
  is_active f = active_state f.state f.stage (is_none f.reason)

  abbrev pub is_sane : Flight T E → Bool
  is_sane f =
      staged f.state f.stage
      && ((f.withdrawals == 0 || not (is_starting f.state) && not (is_none f.reason))
          && (not (is_owned f.state) || leb f.subscribers 1))

  -- What a section may do to a flight: it does not open or activate it, it finishes it only without
  -- subscribers.
  pub record Confines (f g : Flight T E) : Type 0 where
    pub same_key : g.key ≡ f.key
    pub same_subscribers : g.subscribers ≡ f.subscribers
    pub sane : is_sane g ≡ true
    pub opens : (not (is_open f) || is_open g) ≡ true
    pub activates : (not (is_active g) || is_active f) ≡ true
    pub finishes :
        (not (is_finished g.state)
          || (was_withdrawn g
              || (is_finished f.state && not (was_withdrawn f) || f.subscribers == 0)))
        ≡ true

  pub act-Confines :
      (action : CellAction T E) (f : Flight T E) → is_sane f ≡ true → Confines f (act action f)
  unfolding act install begin_poll suspend_poll resolve publish wake end_poll cancel_with
      cancel_cell decided
  act-Confines installs f s = record {
    same_key = ground arith;
    same_subscribers = ground arith;
    sane = ground arith;
    opens = ground arith;
    activates = ground arith;
    finishes = ground arith;
  }
  act-Confines begins f s = record {
    same_key = ground arith;
    same_subscribers = ground arith;
    sane = ground arith;
    opens = ground arith;
    activates = ground arith;
    finishes = ground arith;
  }
  act-Confines suspends f s = record {
    same_key = ground arith;
    same_subscribers = ground arith;
    sane = ground arith;
    opens = ground arith;
    activates = ground arith;
    finishes = ground arith;
  }
  act-Confines resolves f s = record {
    same_key = ground arith;
    same_subscribers = ground arith;
    sane = ground arith;
    opens = ground arith;
    activates = ground arith;
    finishes = ground arith;
  }
  act-Confines publishes f s = record {
    same_key = ground arith;
    same_subscribers = ground arith;
    sane = ground arith;
    opens = ground arith;
    activates = ground arith;
    finishes = ground arith;
  }
  act-Confines wakes f s = record {
    same_key = ground arith;
    same_subscribers = ground arith;
    sane = ground arith;
    opens = ground arith;
    activates = ground arith;
    finishes = ground arith;
  }
  act-Confines (ends t) f s = record {
    same_key = ground arith;
    same_subscribers = ground arith;
    sane = ground arith;
    opens = ground arith;
    activates = ground arith;
    finishes = ground arith;
  }
  act-Confines (cancels_request reason) f s = record {
    same_key = ground arith;
    same_subscribers = ground arith;
    sane = ground arith;
    opens = ground arith;
    activates = ground arith;
    finishes = ground arith;
  }
  act-Confines (cancels_cell reason) f s = record {
    same_key = ground arith;
    same_subscribers = ground arith;
    sane = ground arith;
    opens = ground arith;
    activates = ground arith;
    finishes = ground arith;
  }
