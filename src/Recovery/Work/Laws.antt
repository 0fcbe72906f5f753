-- ===== src/Recovery/Work/Laws.antt =====
-- src/recovery.rs: the order in which work replaces work.
use amalgam.Prelude.{◌≡◌, true, false, arith}
use amalgam.Recovery.Work.{
  RecoveryWork, data_work, marker_work, marker_mutation, marker_snapshot, supersedes,
}

-- Recovery work that supersedes other work is never superseded by it.
pub supersedes_asym : (a b : RecoveryWork) → supersedes a b ≡ true → supersedes b a ≡ false
unfolding supersedes
supersedes_asym (data_work i m) (data_work j n) h = ground arith
supersedes_asym (data_work i m) (marker_work c r) h = ground arith
supersedes_asym (data_work i m) (marker_mutation w) h = ground arith
supersedes_asym (data_work i m) (marker_snapshot w) h = ground arith
supersedes_asym (marker_work c r) (data_work j n) h = ground arith
supersedes_asym (marker_work c r) (marker_work d q) h = ground arith
supersedes_asym (marker_work c r) (marker_mutation w) h = ground arith
supersedes_asym (marker_work c r) (marker_snapshot w) h = ground arith
supersedes_asym (marker_mutation v) (data_work j n) h = ground arith
supersedes_asym (marker_mutation v) (marker_work c r) h = ground arith
supersedes_asym (marker_mutation v) (marker_mutation w) h = ground arith
supersedes_asym (marker_mutation v) (marker_snapshot w) h = ground arith
supersedes_asym (marker_snapshot v) (data_work j n) h = ground arith
supersedes_asym (marker_snapshot v) (marker_work c r) h = ground arith
supersedes_asym (marker_snapshot v) (marker_mutation w) h = ground arith
supersedes_asym (marker_snapshot v) (marker_snapshot w) h = ground arith
