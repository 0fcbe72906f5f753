-- ===== src/Lane/Steps/Order.antt =====
-- src/commit/ordered.rs: claimants of a lane are served in the order in which they enqueue.
use amalgam.Prelude.{
  ℕ, ◌≡◌, ◌≢◌, Bool, true, false, Option, List, [], ◌∷◌, ◌++◌, ◌==◌, ◌||◌, ◌&&◌, arith,
  if◌then◌else◌,
}
use amalgam.Lane.{claim, enqueue, release_ready, handoff, withdraw}
use amalgam.Lane.Queue.{mem, delete}
use amalgam.Lane.Steps.{
  Phase, fresh, enqueuing, waits, holding, handing, finished, System, Step, claim_step, try_step,
  enqueue_step, poll_step, release_step, hand_step, cancel_step, claims, tries, enqueues, polls,
  releases, hands_over, cancels, Reach, owns, is_waiting, next,
}
use amalgam.Lane.Steps.Invariant.{Inv, Reach-Inv, is_new}

-- Steps from a state on.
pub data Run (s : System) : System → Type 0 where
  stay : Run s s
  go_on : {t u : System} → Run s t → Step t u → Run s u

-- `i` is in the queue, and before `j` if that is there too.
abbrev ahead : ℕ → ℕ → List ℕ → Bool
ahead i j [] = false
ahead i j (v ∷ vs) = if v == i then true else if v == j then false else ahead i j vs

ahead-append : (i j k : ℕ) (vs : List ℕ) → ahead i j vs ≡ true → ahead i j (vs ++ k ∷ []) ≡ true
ahead-append i j k [] h = ground arith
ahead-append i j k (v ∷ vs) h = ground (arith, ahead-append i j k vs)

ahead-enqueue :
    (i j : ℕ) (vs : List ℕ) → mem i vs ≡ true → mem j vs ≡ false → ahead i j (vs ++ j ∷ []) ≡ true
ahead-enqueue i j [] h n = ground arith
ahead-enqueue i j (v ∷ vs) h n = ground (arith, ahead-enqueue i j vs)

ahead-delete :
    (i j k : ℕ) (vs : List ℕ) → k ≢ i → ahead i j vs ≡ true → ahead i j (delete k vs) ≡ true
ahead-delete i j k [] n h = ground arith
ahead-delete i j k (v ∷ vs) n h = ground (arith, ahead-delete i j k vs)

-- Neither in the queue nor an owner.
abbrev is_apart : Phase → Bool
is_apart fresh = true
is_apart enqueuing = true
is_apart finished = true
is_apart waits = false
is_apart holding = false
is_apart handing = false

-- `i` has enqueued, and while it waits, `j` is apart or waits behind it.
record Behind (s : System) (i j : ℕ) : Type 0 where
  entered : is_new (s.phase i) ≡ false
  waiting_on :
      is_waiting s i ≡ true
      → (is_apart (s.phase j) || (is_waiting s j && ahead i j s.lane.queue)) ≡ true

module _ (s : System) (o : Option ℕ) (v : Inv s o) (i j k : ℕ) (b : Behind s i j) where
  claims-Behind : s.phase k ≡ fresh → Behind (claims s k) i j
  unfolding claims claim
  claims-Behind p = record {
    entered = ground (arith, b.entered);
    waiting_on = λ w. ground (arith, b.entered, b.waiting_on, v.listed i, v.gate_queued);
  }

  tries-Behind : s.phase k ≡ fresh → Behind (tries s k) i j
  unfolding tries claim
  tries-Behind p = record {
    entered = ground (arith, b.entered);
    waiting_on = λ w. ground (arith, b.entered, b.waiting_on, v.listed i, v.gate_queued);
  }

  enqueues-Behind : i ≢ j → s.phase k ≡ enqueuing → Behind (enqueues s k) i j
  unfolding enqueues enqueue
  enqueues-Behind d p = record {
    entered = ground (arith, b.entered);
    waiting_on = λ w. ground (
      arith,
      b.entered,
      b.waiting_on,
      v.listed i,
      v.listed j,
      v.gate_queued,
      v.clean k,
      ahead-append i j k s.lane.queue,
      ahead-enqueue i j s.lane.queue,
    );
  }

  polls-Behind : s.phase k ≡ waits → Behind (polls s k) i j
  unfolding polls
  polls-Behind p = record {
    entered = ground (arith, b.entered);
    waiting_on = λ w. ground (arith, b.entered, b.waiting_on);
  }

  releases-Behind : s.phase k ≡ holding → Behind (releases s k) i j
  unfolding releases release_ready
  releases-Behind p = record {
    entered = ground (arith, b.entered);
    waiting_on = λ w. ground (arith, b.entered, b.waiting_on);
  }

  hands_over-Behind : i ≢ j → s.phase k ≡ handing → Behind (hands_over s k) i j
  unfolding hands_over handoff
  hands_over-Behind d p = record {
    entered = ground (arith, b.entered);
    waiting_on = λ w. ground (arith, b.entered, b.waiting_on, v.listed i, v.listed j, v.once);
  }

  cancels-Behind : s.phase k ≡ waits → Behind (cancels s k) i j
  unfolding cancels withdraw
  cancels-Behind p = record {
    entered = ground (arith, b.entered);
    waiting_on = λ w. ground (arith, b.entered, b.waiting_on, ahead-delete i j k s.lane.queue);
  }

Step-Behind :
    {s t : System} (o : Option ℕ) (i j : ℕ)
    → Inv s o
    → i ≢ j
    → Step s t
    → Behind s i j
    → Behind t i j
Step-Behind {s} o i j v d (claim_step k p e) b = rw e (claims-Behind s o v i j k b p)
Step-Behind {s} o i j v d (try_step k p e) b = rw e (tries-Behind s o v i j k b p)
Step-Behind {s} o i j v d (enqueue_step k p e) b = rw e (enqueues-Behind s o v i j k b d p)
Step-Behind {s} o i j v d (poll_step k p e) b = rw e (polls-Behind s o v i j k b p)
Step-Behind {s} o i j v d (release_step k p e) b = rw e (releases-Behind s o v i j k b p)
Step-Behind {s} o i j v d (hand_step k p e) b = rw e (hands_over-Behind s o v i j k b d p)
Step-Behind {s} o i j v d (cancel_step k p e) b = rw e (cancels-Behind s o v i j k b p)

Run-Behind :
    {s t : System} (i j : ℕ) → Reach s → i ≢ j → Behind s i j → Run s t → Reach t × Behind t i j
Run-Behind i j r d b stay = (r, b)
Run-Behind i j r d b (go_on run step) =
    let (r', b') = Run-Behind i j r d b run in
    let (o, v) = Reach-Inv r' in (next r' step, Step-Behind o i j v d step b')

-- A claimant of a lane that comes while another one waits in a reachable state, and has not enqueued
-- by then, does not own the lane in any later state in which the other still waits, whatever the
-- steps in between.
pub no_overtaking :
    {s t : System} (i j : ℕ)
    → Reach s
    → is_waiting s i ≡ true
    → is_new (s.phase j) ≡ true
    → Run s t
    → is_waiting t i ≡ true
    → owns t j ≡ false
no_overtaking {s} {t} i j r w n run still =
    let b : Behind s i j = record { entered = ground arith; waiting_on = λ h. ground (arith, n) } in
    let (r', c) = Run-Behind i j r (λ e. ground (arith, w, n, e)) b run in
    ground (arith, c.waiting_on still)
