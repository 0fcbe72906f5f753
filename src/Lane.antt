-- ===== src/Lane.antt =====
-- src/commit/ordered.rs: the admission of suspended mutations to a key, in order of arrival. A lane
-- is its gate word, its queue in the shard's map (no entry is the empty queue) and the grants of the
-- waiters. Each function is one atomic step: a compare-and-swap of the gate, or a critical section
-- of the shard's mutex. `Lane/Steps` interleaves them.
mod Tests
pub mod Queue
pub mod Steps
use amalgam.Prelude.{
  ℕ, Bool, true, false, not, Option, none, some, List, [], ◌∷◌, ◌++◌, ◌==◌, ◌&&◌, if◌then◌else◌,
  update,
}
use Queue.{is_empty, delete}

pub data GateState : Type 0 where
  free held queued : GateState

pub record Lane : Type 0 where
  pub gate : GateState
  pub queue : List ℕ
  pub granted : ℕ → Bool

-- `KeyLane::new`
abbrev pub new_lane : Lane
new_lane = record { gate = free; queue = []; granted = λ _. false }

-- `Admission::claim`: Free to Held.
abbrev claim_at : GateState → Lane → Lane × Bool
claim_at free l = (record l { gate = held }, true)
claim_at held l = (l, false)
claim_at queued l = (l, false)

pub claim : Lane → Lane × Bool
claim l = claim_at l.gate l

pub data Enqueued : Type 0 where
  claimed waiting : Enqueued

abbrev push : Lane → ℕ → Lane
push l w = record l { gate = queued; queue = l.queue ++ w ∷ [] }

abbrev enqueue_at : GateState → Lane → ℕ → Lane × Enqueued
enqueue_at free l w = (record l { gate = held }, claimed)
enqueue_at held l w = (push l w, waiting)
enqueue_at queued l w = (push l w, waiting)

-- `QueueRef::enqueue`, from the pass of its loop whose exchange succeeds (`mark_queued` from Held,
-- or `claim` from Free) or that finds Queued. The push belongs to the same critical section, and the
-- exchanges outside the mutex fail on Queued, so nothing can come between.
pub enqueue : Lane → ℕ → Lane × Enqueued
enqueue l w = enqueue_at l.gate l w

abbrev release_at : GateState → Lane → Lane × Bool
release_at held l = (record l { gate = free }, true)
release_at free l = (l, false)
release_at queued l = (l, false)

-- `Admission::release_ready`: Held to Free.
pub release_ready : Lane → Lane × Bool
release_ready l = release_at l.gate l

abbrev pop_front : List ℕ → Lane → Lane × Option ℕ
pop_front [] l = (record l { gate = free }, none)
pop_front (w ∷ ws) l = (
  record l {
    gate = if is_empty ws then held else queued;
    queue = ws;
    granted = update l.granted w true;
  },
  some w,
)

-- `QueueRef::handoff`: the waiter at the front is granted the lane before it is woken.
pub handoff : Lane → Lane × Option ℕ
handoff l = pop_front l.queue l

abbrev withdrawn : List ℕ → Lane → Lane
withdrawn ws l = record l { queue = ws; gate = if is_empty ws then held else l.gate }

-- `QueueRef::withdraw`: true for a waiter that owns the lane already.
pub withdraw : Lane → ℕ → Lane × Bool
withdraw l w = if l.granted w then (l, true) else (withdrawn (delete w l.queue) l, false)
