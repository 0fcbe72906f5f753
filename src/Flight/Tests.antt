-- ===== src/Flight/Tests.antt =====
-- src/single_flight.rs: two callers of one key, and a cancellation between its cell and its entry.
use amalgam.Prelude.{ℕ, ◌≡◌, ◌==◌, refl, true, false, List, [], ◌∷◌}
use amalgam.Prelude.Assoc.{lookup, insert}
use amalgam.Prelude.Text.{Text}
use amalgam.Flight.{
  caller_cancelled, launched, unlaunched, install, begin_poll, cancel_with, cancel_cell,
  unsubscribe, take_answer,
}
use amalgam.Flight.Table.{Flights, new, acquire, drop_subscription, try_complete}
use amalgam.Flight.Run.{
  Action, acquires, on_cell, drops, installs, begins, cancels_request, cancels_cell, act, perform,
  Reach, start, step,
}
use amalgam.Flight.Run.Safety.{is_misuse, one_active, acquire-joins, try_complete-answers}

abbrev perform_all : List (Action ℕ ℕ) → Flights ℕ ℕ
perform_all [] = new
perform_all (a ∷ rest) = perform a (perform_all rest)

perform_all-Reach : (actions : List (Action ℕ ℕ)) → Reach (perform_all actions)
perform_all-Reach [] = start
perform_all-Reach (a ∷ rest) = step a (perform_all rest) (perform_all-Reach rest)

abbrev key : Text
key = 7 ∷ []

-- The latest section first: a leader whose work is being polled, and a caller that joins it.
abbrev shared_run : List (Action ℕ ℕ)
shared_run = acquires key ∷ on_cell 0 begins ∷ on_cell 0 installs ∷ acquires key ∷ []

one_active_example : (0 == 0) ≡ true
unfolding perform act new unlaunched launched lookup insert acquire install begin_poll
one_active_example =
    one_active (perform_all shared_run) 0 0 (perform_all-Reach shared_run) refl refl refl

acquire-joins_example :
    ((acquire (perform_all shared_run) key).next_flight ≡ 1)
    × (((acquire (perform_all shared_run) key).subscriptions
          ≡ record { flight = 0; leader = false; consumed = false }
            ∷ (perform_all shared_run).subscriptions)
        × (((acquire (perform_all shared_run) key).flights 0).state
            ≡ ((perform_all shared_run).flights 0).state))
unfolding perform act new unlaunched launched lookup insert acquire install begin_poll
acquire-joins_example = acquire-joins (perform_all shared_run) 0 (perform_all-Reach shared_run) refl

try_complete-answers_example : is_misuse (try_complete (perform_all shared_run) 1).1 ≡ false
unfolding perform act new unlaunched launched lookup insert acquire install begin_poll
try_complete-answers_example =
    try_complete-answers (perform_all shared_run) 1
      (record { flight = 0; leader = true; consumed = false }) (perform_all-Reach shared_run) refl
      refl refl

-- A caller that joins between the cell and the entry of a cancellation, after the last subscriber
-- has left, is refused.
abbrev race_run : List (Action ℕ ℕ)
race_run =
    acquires key
    ∷ drops 0
    ∷ on_cell 0 (cancels_cell caller_cancelled)
    ∷ on_cell 0 (cancels_request caller_cancelled)
    ∷ acquires key
    ∷ []

race_run-misuse : is_misuse (try_complete (perform_all race_run) 0).1 ≡ true
unfolding perform act new unlaunched launched lookup insert acquire cancel_with cancel_cell
    drop_subscription unsubscribe try_complete take_answer
race_run-misuse = refl
