-- ===== src/Lane/Tests.antt =====
-- src/commit/ordered.rs: a lane with one owner and one waiter.
use amalgam.Prelude.{ℕ, ◌≡◌, ◌≢◌, refl, true, false}
use amalgam.Lane.{claim, enqueue, release_ready, handoff, withdraw}
use amalgam.Lane.Steps.{
  System, start, claims, tries, enqueues, polls, releases, hands_over, cancels, Reach, here, next,
  claim_step, enqueue_step, owns,
}
use amalgam.Lane.Steps.Safety.{mutual_exclusion, waiting_served}
use amalgam.Lane.Steps.Order.{Run, stay, go_on, no_overtaking}

program : Unit {0}
unfolding claim enqueue release_ready handoff withdraw claims enqueues releases hands_over tries
    polls cancels
program = tt

-- Claimant 0 owns the lane, and claimant 1 waits for it.
abbrev waited : System
waited = enqueues (claims (claims start 0) 1) 1

-- Claimant 0 has dropped its guard, and is about to hand the lane over.
abbrev dropped : System
dropped = releases waited 0

waited-Reach : Reach waited
unfolding program
waited-Reach =
    next (next (next here (claim_step 0 refl refl)) (claim_step 1 refl refl))
      (enqueue_step 1 refl refl)

-- A waiter that was granted the lane and gives up releases it.
cancel_runs :
    ((withdraw (handoff dropped.lane).0 1).1 ≡ true) × ((polls dropped 1).lane ≡ dropped.lane)
unfolding program
cancel_runs = (refl, refl)

-- `try_lock` does not wait.
try_runs : (tries waited 2).lane ≡ waited.lane
unfolding program
try_runs = refl

mutual_exclusion_example : ◌≡◌ {A = ℕ} 0 0
unfolding program
mutual_exclusion_example = mutual_exclusion 0 0 waited-Reach refl refl

waiting_served_example :
    ((k : ℕ) × (owns waited k ≡ true) × (k ≢ 1)) × (claim waited.lane ≡ (waited.lane, false))
unfolding program
waiting_served_example = waiting_served 1 waited-Reach refl

-- Claimant 2 has come while claimant 1 waits, and waits behind it.
abbrev followed : System
followed = enqueues (claims waited 2) 2

followed-Run : Run waited followed
unfolding program
followed-Run = go_on (go_on stay (claim_step 2 refl refl)) (enqueue_step 2 refl refl)

no_overtaking_example : owns followed 2 ≡ false
unfolding program
no_overtaking_example = no_overtaking 1 2 waited-Reach refl refl followed-Run refl
