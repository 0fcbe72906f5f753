-- ===== src/Recovery/MarkerWork/Debts.antt =====
-- src/recovery/marker_snapshots.rs: the compaction that superseded work still owes is not forgotten.
use amalgam.Prelude.{◌≡◌, ◌⊎◌, Bool, true, false, not, Option, none, some, arith}
use amalgam.Prelude.Result.{ok}
use amalgam.Recovery.MarkerWork.{
  Debt, MarkerMutationRecovery, debt_lt, later_debt, inherit_compaction, with_compaction,
  completed_compaction,
}

-- Whether the first debt is there and no less urgent, if there is a second.
abbrev pub at_least : Option Debt → Option Debt → Bool
at_least kept none = true
at_least none (some d) = false
at_least (some kept) (some d) = not (debt_lt kept d)

later_debt-at_least :
    (a b d : Option Debt)
    → (at_least (later_debt a b) a ≡ true)
      × (at_least (later_debt a b) b ≡ true)
      × ((at_least a d ≡ false) ⊎ (at_least (later_debt a b) d ≡ true))
later_debt-at_least none none none = ground arith
later_debt-at_least none none (some d) = ground arith
later_debt-at_least none (some b) none = ground arith
later_debt-at_least none (some b) (some d) = ground arith
later_debt-at_least (some a) none none = ground arith
later_debt-at_least (some a) none (some d) = ground arith
later_debt-at_least (some a) (some b) none = ground arith
later_debt-at_least (some a) (some b) (some d) = ground arith

with_compaction-ok :
    (w : MarkerMutationRecovery) (child : Option Debt) {t : MarkerMutationRecovery}
    → with_compaction w child ≡ ok t
    → t ≡ record w { compaction = child }
unfolding with_compaction
with_compaction-ok w child h = ground arith

-- Where it is not refused, work that takes over from a superseded marker mutation stays the same
-- command at the same stage, and owes a compaction no less urgent than any that it or the
-- superseded work owed.
pub inherit_keeps :
    (w previous t : MarkerMutationRecovery)
    → inherit_compaction w previous ≡ ok t
    → (t.command ≡ w.command)
      × (t.phase ≡ w.phase)
      × (at_least t.compaction (completed_compaction previous) ≡ true)
      × (at_least t.compaction previous.compaction ≡ true)
      × (at_least t.compaction w.compaction ≡ true)
unfolding inherit_compaction
inherit_keeps w previous t h =
    let own = completed_compaction previous in
    let first = later_debt own previous.compaction in
    let e = with_compaction-ok w (later_debt first w.compaction) {t = t} h in
    ground (
      arith,
      e,
      later_debt-at_least own previous.compaction own,
      later_debt-at_least first w.compaction own,
      later_debt-at_least first w.compaction previous.compaction,
    )
