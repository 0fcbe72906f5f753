-- ===== src/Recovery/MarkerWork.antt =====
-- src/recovery/marker_snapshots.rs: the recovery of a marker mutation, stage by stage. The
-- independent debt of superseded work is at most one level deep: a `Debt` has no debt of its own.
pub mod Debts
use amalgam.Prelude.{
  Bool, true, false, not, Option, none, some, List, [], ◌∷◌, ◌&&◌, ◌||◌, any, length, ltb,
  if◌then◌else◌,
}
use amalgam.Prelude.Int.{ltb_ℤ, eqb_ℤ}
use amalgam.Prelude.Result.{Result, ok, err, ◌>>=◌, ◌>>◌, reject_if}
use amalgam.Options.Entry.{EntryOptions}
use amalgam.Tags.Marker.{kind_eq, clear_remove, MarkerVersion}
use amalgam.Tags.Scope.{scope_eq}
use amalgam.Tags.Snapshot
use amalgam.Tags.Snapshot.{MarkerSnapshot}
use amalgam.Backplane.{MarkerCommand}

pub data RecoveryError : Type 0 where
  generation_exhausted identity_exhausted zero_delay missing_runtime : RecoveryError
  executor_already_configured stopped unsupported_marker_executor : RecoveryError
  snapshot_writes_skipped marker_identity_changed invalid_marker_stage : RecoveryError
  invalid_barrier task_failed : RecoveryError

-- `MarkerMutationPhase`, and the public view `MarkerMutationStage` of it.
pub data MarkerMutationPhase : Type 0 where
  advance : EntryOptions → MarkerSnapshot → MarkerMutationPhase
  populate : EntryOptions → MarkerSnapshot → List MarkerCommand → MarkerMutationPhase
  notify : List MarkerCommand → MarkerMutationPhase

pub record Debt : Type 0 where
  pub command : MarkerCommand
  pub phase : MarkerMutationPhase

pub record MarkerMutationRecovery : Type 0 where
  pub command : MarkerCommand
  pub phase : MarkerMutationPhase
  pub compaction : Option Debt

abbrev is_advance : MarkerMutationPhase → Bool
is_advance (advance _ _) = true
is_advance (populate _ _ _) = false
is_advance (notify _) = false

abbrev is_notify : MarkerMutationPhase → Bool
is_notify (notify _) = true
is_notify (advance _ _) = false
is_notify (populate _ _ _) = false

abbrev pub version_of : MarkerCommand → MarkerVersion
version_of c = c.marker.version

-- A debt must be a clear-remove of the same scope past its own advance.
foreign : MarkerCommand → Option Debt → Bool
foreign c none = false
foreign c (some child) =
    not (scope_eq child.command.scope c.scope)
    || (not (kind_eq child.command.marker.kind clear_remove) || is_advance child.phase)

unfoldable pub with_compaction :
    MarkerMutationRecovery → Option Debt → Result MarkerMutationRecovery RecoveryError
unfolding foreign
with_compaction w child = do
  reject_if (foreign w.command child) marker_identity_changed
  ok (record w { compaction = child })

abbrev first_of : List MarkerCommand → (MarkerCommand → Debt) → Option Debt
first_of [] f = none
first_of (c ∷ cs) f = some (f c)

abbrev completed_of : MarkerMutationPhase → Option Debt
completed_of (advance _ _) = none
completed_of (populate options snapshot additional) = first_of additional λ c. record {
  command = c;
  phase = populate options (Snapshot.fresh (version_of c) options snapshot.created) [];
}
completed_of (notify additional) =
    first_of additional λ c. record { command = c; phase = notify [] }

-- The compaction that a committed mutation carried, as work of its own.
unfoldable pub completed_compaction : MarkerMutationRecovery → Option Debt
completed_compaction w = completed_of w.phase

-- `(version, stage is Notify)`, lexicographically.
abbrev pub debt_lt : Debt → Debt → Bool
debt_lt a b =
    ltb_ℤ (version_of a.command) (version_of b.command)
    || (eqb_ℤ (version_of a.command) (version_of b.command)
        && (not (is_notify a.phase) && is_notify b.phase))

-- `max_by_key` keeps the last of equal maxima.
abbrev pub later_debt : Option Debt → Option Debt → Option Debt
later_debt none b = b
later_debt (some a) none = some a
later_debt (some a) (some b) = if debt_lt b a then some a else some b

unfoldable pub inherit_compaction :
    MarkerMutationRecovery → MarkerMutationRecovery → Result MarkerMutationRecovery RecoveryError
unfolding completed_compaction
inherit_compaction w previous =
    with_compaction w
      (later_debt (later_debt (completed_compaction previous) previous.compaction) w.compaction)

unfoldable pub committed_notification : MarkerCommand → MarkerMutationRecovery
committed_notification c = record { command = c; phase = notify []; compaction = none }

population_phase :
    MarkerMutationPhase
    → MarkerVersion
    → List MarkerCommand
    → Result MarkerMutationPhase RecoveryError
population_phase (advance options snapshot) version additional =
    ok (populate options (Snapshot.with_maximum snapshot (some version)) additional)
population_phase (populate _ _ _) version additional = err invalid_marker_stage
population_phase (notify _) version additional = err invalid_marker_stage

abbrev is_nonempty : List MarkerCommand → Bool
is_nonempty [] = false
is_nonempty (_ ∷ _) = true

pub population :
    MarkerMutationRecovery
    → MarkerCommand
    → List MarkerCommand
    → Result MarkerMutationRecovery RecoveryError
unfolding population_phase
population w command additional = do
  reject_if
      (not (scope_eq w.command.scope command.scope)
        || (not (kind_eq w.command.marker.kind command.marker.kind)
            || ltb_ℤ (version_of command) (version_of w.command)))
      marker_identity_changed
  reject_if
      (ltb 1 (length additional)
        || (is_nonempty additional && kind_eq command.marker.kind clear_remove))
      marker_identity_changed
  reject_if
      (any
        (λ other.
          not (scope_eq other.scope command.scope) || not (kind_eq other.marker.kind clear_remove))
        additional)
      marker_identity_changed
  phase ← population_phase w.phase (version_of command) additional
  ok (record { command = command; phase = phase; compaction = w.compaction })

notification_phase : MarkerMutationPhase → Result MarkerMutationPhase RecoveryError
notification_phase (populate options _ additional) =
    if options.skip_backplane_notifications
    then err invalid_marker_stage
    else ok (notify additional)
notification_phase (advance _ _) = err invalid_marker_stage
notification_phase (notify _) = err invalid_marker_stage

pub notification : MarkerMutationRecovery → Result MarkerMutationRecovery RecoveryError
unfolding notification_phase
notification w = do phase ← notification_phase w.phase; ok (record w { phase = phase })
