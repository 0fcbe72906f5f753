-- ===== src/Lane/Steps/Safety.antt =====
-- src/commit/ordered.rs: what the claimants of a lane may rely on.
use amalgam.Prelude.{ℕ, ◌≡◌, true, false, Option, some, inl, inr, arith, Option-cases, ◌≢◌}
use amalgam.Lane.{queued, claim}
use amalgam.Lane.Steps.{System, Reach, owns, is_waiting}
use amalgam.Lane.Steps.Invariant.{Inv, Reach-Inv}

-- In every reachable state of a lane, whatever the interleaving of claims, tries, enqueues, polls,
-- releases, handoffs and cancellations, two claimants that own it are the same.
pub mutual_exclusion : {s : System} (i j : ℕ) → Reach s → owns s i ≡ true → owns s j ≡ true → i ≡ j
mutual_exclusion {s} i j r a b = let (o, v) = Reach-Inv r in ground (arith, v.owned i, v.owned j)

waiting-queued :
    (s : System) (o : Option ℕ) (i : ℕ)
    → Inv s o
    → is_waiting s i ≡ true
    → (s.lane.gate ≡ queued) × ((k : ℕ) × (o ≡ some k))
waiting-queued s o i v w = elim (Option-cases o) [
  | inl e ↦ absurd (ground (arith, v.listed i, v.gate_queued, v.gate_free))
  | inr (k, e) ↦ (ground (arith, v.listed i, v.gate_queued), (k, e))
]

-- While a claimant of a reachable lane waits, another one owns the lane, and a claim by a newcomer
-- fails and changes nothing.
pub waiting_served :
    {s : System} (i : ℕ)
    → Reach s
    → is_waiting s i ≡ true
    → ((k : ℕ) × (owns s k ≡ true) × (k ≢ i)) × (claim s.lane ≡ (s.lane, false))
unfolding claim
waiting_served {s} i r w =
    let (o, v) = Reach-Inv r in
    let (shut, (k, e)) = waiting-queued s o i v w in
    ((k, ground (arith, v.owned k), λ q. ground (arith, v.owned i)), ground arith)
