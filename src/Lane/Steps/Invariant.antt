-- ===== src/Lane/Steps/Invariant.antt =====
-- src/commit/ordered.rs: what holds between any two steps of the claimants of a lane.
use amalgam.Prelude.{
  ℕ, ◌≡◌, refl, Bool, true, false, not, Option, none, some, ◌==◌, arith, if◌then◌else◌,
}
use amalgam.Lane.{GateState, free, held, queued, claim, enqueue, release_ready, handoff, withdraw}
use amalgam.Lane.Queue.{
  is_empty, mem, distinct, mem-append, distinct-append, mem-delete, distinct-delete,
  is_empty-append,
}
use amalgam.Lane.Steps.{
  Phase, fresh, enqueuing, waits, holding, handing, finished, System, start, Step, claim_step,
  try_step, enqueue_step, poll_step, release_step, hand_step, cancel_step, claims, tries, enqueues,
  polls, releases, hands_over, cancels, Reach, here, next, owns, is_waiting,
}

abbrev pub is_free : GateState → Bool
is_free free = true
is_free held = false
is_free queued = false

abbrev pub is_queued : GateState → Bool
is_queued queued = true
is_queued free = false
is_queued held = false

abbrev pub holds : Option ℕ → ℕ → Bool
holds none i = false
holds (some o) i = o == i

abbrev is_none : Option ℕ → Bool
is_none none = true
is_none (some _) = false

-- Not yet in the queue.
abbrev pub is_new : Phase → Bool
is_new fresh = true
is_new enqueuing = true
is_new waits = false
is_new holding = false
is_new handing = false
is_new finished = false

pub record Inv (s : System) (owner : Option ℕ) : Type 0 where
  pub owned : (i : ℕ) → owns s i ≡ holds owner i
  pub gate_free : is_free s.lane.gate ≡ is_none owner
  pub gate_queued : is_queued s.lane.gate ≡ not (is_empty s.lane.queue)
  pub listed : (i : ℕ) → mem i s.lane.queue ≡ is_waiting s i
  pub once : distinct s.lane.queue ≡ true
  pub clean : (i : ℕ) → is_new (s.phase i) ≡ true → s.lane.granted i ≡ false

start-Inv : Inv start none
start-Inv = record {
  owned = λ i. refl;
  gate_free = refl;
  gate_queued = refl;
  listed = λ i. refl;
  once = refl;
  clean = λ i h. refl;
}

module _ (s : System) (owner : Option ℕ) (v : Inv s owner) (i : ℕ) where
  claims-Inv : s.phase i ≡ fresh → (o : Option ℕ) × Inv (claims s i) o
  unfolding claims claim
  claims-Inv p = (
    if is_free s.lane.gate then some i else owner,
    record {
      owned = λ j. ground (arith, v.owned j, v.gate_free, v.clean i);
      gate_free = ground (arith, v.gate_free);
      gate_queued = ground (arith, v.gate_queued);
      listed = λ j. ground (arith, v.listed j, v.gate_queued);
      once = ground (arith, v.once);
      clean = λ j h. ground (arith, v.clean j, v.clean i);
    },
  )

  tries-Inv : s.phase i ≡ fresh → (o : Option ℕ) × Inv (tries s i) o
  unfolding tries claim
  tries-Inv p = (
    if is_free s.lane.gate then some i else owner,
    record {
      owned = λ j. ground (arith, v.owned j, v.gate_free, v.clean i);
      gate_free = ground (arith, v.gate_free);
      gate_queued = ground (arith, v.gate_queued);
      listed = λ j. ground (arith, v.listed j, v.gate_queued);
      once = ground (arith, v.once);
      clean = λ j h. ground (arith, v.clean j, v.clean i);
    },
  )

  enqueues-Inv : s.phase i ≡ enqueuing → (o : Option ℕ) × Inv (enqueues s i) o
  unfolding enqueues enqueue
  enqueues-Inv p = (
    if is_free s.lane.gate then some i else owner,
    record {
      owned = λ j. ground (arith, v.owned j, v.gate_free, v.clean i);
      gate_free = ground (arith, v.gate_free);
      gate_queued = ground (arith, v.gate_queued, is_empty-append i s.lane.queue);
      listed =
          λ j. ground (arith, v.listed j, v.gate_queued, mem-append j i s.lane.queue, v.clean i);
      once = ground (arith, v.once, v.listed i, distinct-append i s.lane.queue);
      clean = λ j h. ground (arith, v.clean j, v.clean i);
    },
  )

  polls-Inv : s.phase i ≡ waits → (o : Option ℕ) × Inv (polls s i) o
  unfolding polls
  polls-Inv p = (
    owner,
    record {
      owned = λ j. ground (arith, v.owned j);
      gate_free = v.gate_free;
      gate_queued = v.gate_queued;
      listed = λ j. ground (arith, v.listed j);
      once = v.once;
      clean = λ j h. ground (arith, v.clean j);
    },
  )

  releases-Inv : s.phase i ≡ holding → (o : Option ℕ) × Inv (releases s i) o
  unfolding releases release_ready
  releases-Inv p = (
    if is_queued s.lane.gate then owner else none,
    record {
      owned = λ j. ground (arith, v.owned j, v.owned i, v.gate_free);
      gate_free = ground (arith, v.owned i, v.gate_free);
      gate_queued = ground (arith, v.gate_queued);
      listed = λ j. ground (arith, v.listed j);
      once = ground (arith, v.once);
      clean = λ j h. ground (arith, v.clean j);
    },
  )

  hands_over-Inv : s.phase i ≡ handing → (o : Option ℕ) × Inv (hands_over s i) o
  unfolding hands_over handoff
  hands_over-Inv p = (
    (handoff s.lane).1,
    record {
      owned = λ j. ground (arith, v.owned j, v.owned i, v.listed j, v.listed i);
      gate_free = ground (arith);
      gate_queued = ground (arith, v.gate_queued);
      listed = λ j. ground (arith, v.listed j, v.listed i, v.once);
      once = ground (arith, v.once);
      clean = λ j h. ground (arith, v.clean j, v.listed j);
    },
  )

  cancels-Inv : s.phase i ≡ waits → (o : Option ℕ) × Inv (cancels s i) o
  unfolding cancels withdraw
  cancels-Inv p = (
    owner,
    record {
      owned = λ j. ground (arith, v.owned j);
      gate_free = ground (arith, v.gate_free, v.gate_queued, v.listed i);
      gate_queued = ground (arith, v.gate_queued, v.listed i);
      listed = λ j. ground (arith, v.listed j, mem-delete j i s.lane.queue, v.once);
      once = ground (arith, v.once, distinct-delete i s.lane.queue);
      clean = λ j h. ground (arith, v.clean j);
    },
  )

Step-Inv : {s t : System} (owner : Option ℕ) → Step s t → Inv s owner → (o : Option ℕ) × Inv t o
Step-Inv {s} owner (claim_step i p e) v = rw e (claims-Inv s owner v i p)
Step-Inv {s} owner (try_step i p e) v = rw e (tries-Inv s owner v i p)
Step-Inv {s} owner (enqueue_step i p e) v = rw e (enqueues-Inv s owner v i p)
Step-Inv {s} owner (poll_step i p e) v = rw e (polls-Inv s owner v i p)
Step-Inv {s} owner (release_step i p e) v = rw e (releases-Inv s owner v i p)
Step-Inv {s} owner (hand_step i p e) v = rw e (hands_over-Inv s owner v i p)
Step-Inv {s} owner (cancel_step i p e) v = rw e (cancels-Inv s owner v i p)

-- In every reachable state the lane has at most one owner, the gate tells whether it has one and
-- whether anyone waits, and the queue lists exactly the waiting claimants, each once.
pub Reach-Inv : {s : System} → Reach s → (owner : Option ℕ) × Inv s owner
Reach-Inv here = (none, start-Inv)
Reach-Inv (next r st) = let (o, v) = Reach-Inv r in Step-Inv o st v
