-- ===== src/Lane/Steps.antt =====
-- src/commit/ordered.rs: claimants of one lane, interleaved step by step. A claimant is a
-- `LaneAcquisition` and the `LaneGuard` that it becomes; each is used once.
pub mod Invariant
pub mod Safety
pub mod Order
use amalgam.Prelude.{ℕ, ◌≡◌, Bool, true, false, Option, none, some, if◌then◌else◌, update}
use amalgam.Lane.{
  Lane, new_lane, claim, Enqueued, claimed, waiting, enqueue, release_ready, handoff, withdraw,
}

-- `enqueuing`: its first claim failed; `handing`: its release found waiters.
pub data Phase : Type 0 where
  fresh enqueuing waits holding handing finished : Phase

pub record System : Type 0 where
  pub lane : Lane
  pub phase : ℕ → Phase

abbrev pub start : System
start = record { lane = new_lane; phase = λ _. Phase.fresh }

abbrev move : System → ℕ → Lane → Phase → System
move s i l p = record { lane = l; phase = update s.phase i p }

abbrev pub after_enqueue : Enqueued → Phase
after_enqueue claimed = holding
after_enqueue waiting = waits

-- `LaneAcquisition::start` and its first poll, up to the failed claim.
unfoldable pub claims : System → ℕ → System
claims s i = let (l, won) = claim s.lane in move s i l (if won then holding else enqueuing)

-- `KeyLane::try_lock` gives up where `start` would enqueue.
unfoldable pub tries : System → ℕ → System
tries s i = let (l, won) = claim s.lane in move s i l (if won then holding else finished)

unfoldable pub enqueues : System → ℕ → System
enqueues s i = let (l, r) = enqueue s.lane i in move s i l (after_enqueue r)

-- `poll_waiter`: ready once granted.
unfoldable pub polls : System → ℕ → System
polls s i = move s i s.lane (if s.lane.granted i then holding else waits)

-- Dropping a guard: without waiters the gate opens, with waiters the lane is handed on.
unfoldable pub releases : System → ℕ → System
releases s i =
    let (l, ready) = release_ready s.lane in move s i l (if ready then finished else handing)

unfoldable pub hands_over : System → ℕ → System
hands_over s i = let (l, next) = handoff s.lane in move s i l finished

-- Dropping a queued acquisition: one that was granted the lane releases it.
unfoldable pub cancels : System → ℕ → System
cancels s i = let (l, owner) = withdraw s.lane i in move s i l (if owner then holding else finished)

pub data Step (s t : System) : Type 0 where
  claim_step : (i : ℕ) → s.phase i ≡ fresh → t ≡ claims s i → Step s t
  try_step : (i : ℕ) → s.phase i ≡ fresh → t ≡ tries s i → Step s t
  enqueue_step : (i : ℕ) → s.phase i ≡ enqueuing → t ≡ enqueues s i → Step s t
  poll_step : (i : ℕ) → s.phase i ≡ waits → t ≡ polls s i → Step s t
  release_step : (i : ℕ) → s.phase i ≡ holding → t ≡ releases s i → Step s t
  hand_step : (i : ℕ) → s.phase i ≡ handing → t ≡ hands_over s i → Step s t
  cancel_step : (i : ℕ) → s.phase i ≡ waits → t ≡ cancels s i → Step s t

pub data Reach : System → Type 0 where
  here : Reach start
  next : {s t : System} → Reach s → Step s t → Reach t

-- The lane belongs to a claimant from its claim or grant until its release.
abbrev pub owns_in : Phase → Bool → Bool
owns_in holding granted = true
owns_in handing granted = true
owns_in waits granted = granted
owns_in fresh granted = false
owns_in enqueuing granted = false
owns_in finished granted = false

abbrev pub owns : System → ℕ → Bool
owns s i = owns_in (s.phase i) (s.lane.granted i)

abbrev pub waits_in : Phase → Bool → Bool
waits_in waits granted = if granted then false else true
waits_in fresh granted = false
waits_in enqueuing granted = false
waits_in holding granted = false
waits_in handing granted = false
waits_in finished granted = false

abbrev pub is_waiting : System → ℕ → Bool
is_waiting s i = waits_in (s.phase i) (s.lane.granted i)
