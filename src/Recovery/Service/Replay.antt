-- ===== src/Recovery/Service/Replay.antt =====
-- src/recovery.rs: what the replay of a ticket, and a mutation that succeeded meanwhile, do to the
-- queue.
pub mod Identity
use amalgam.Prelude.{
  ℕ, ◌-◌, Bool, true, false, Option, none, some, [], ◌==◌, ◌&&◌, leb, if◌then◌else◌,
}
use mathlib.Core.Option
use amalgam.Prelude.Int.{leb_ℤ}
use amalgam.Prelude.Assoc.{lookup, insert, remove}
use amalgam.Prelude.Text.{Text}
use amalgam.Prelude.Result.{Result, ok, err, ◌>>=◌}
use amalgam.Time.Timestamp.{Timestamp}
use amalgam.Recovery.MarkerWork.{
  RecoveryError, MarkerMutationRecovery, notification, populate, advance, notify,
  MarkerMutationPhase,
}
use amalgam.Recovery.Work.{
  OperationGeneration, Fence, Generations, is_current, PendingMutation, legacy, commit,
  fenced_commit, cold_expire, advance_only, advance_and_notify, notify_only, RecoveryWork,
  data_work, marker_work, marker_mutation, marker_snapshot, RecoveryKey, data_key, key, timestamp,
  key_Eq,
}
use amalgam.Recovery.Service.{ReplayTicket, pending, in_flight, Queued, AutoRecoveryService}

pub data SupersedeOutcome : Type 0 where
  removed unchanged : SupersedeOutcome

abbrev pub remove_if :
    AutoRecoveryService
    → RecoveryKey
    → (ReplayTicket → Bool)
    → Option Queued
    → AutoRecoveryService × SupersedeOutcome
remove_if s k test none = (s, unchanged)
remove_if s k test (some q) =
    if test q.ticket then (record s { entries = remove k s.entries }, removed) else (s, unchanged)

unfoldable pub supersede_through :
    AutoRecoveryService → Text → OperationGeneration → AutoRecoveryService × SupersedeOutcome
supersede_through s k generation =
    remove_if s (data_key k) (λ t. leb t.generation generation) (lookup (data_key k) s.entries)

unfoldable pub cancel_through :
    AutoRecoveryService → Text → Timestamp → AutoRecoveryService × SupersedeOutcome
cancel_through s k at =
    remove_if s (data_key k) (λ t. leb_ℤ (timestamp t.work) at) (lookup (data_key k) s.entries)

unfoldable pub complete :
    AutoRecoveryService → ReplayTicket → AutoRecoveryService × SupersedeOutcome
complete s ticket =
    let k = key ticket.work in remove_if s k (λ t. t.id == ticket.id) (lookup k s.entries)

abbrev pub is_identical : Option Queued → ReplayTicket → Bool
is_identical none ticket = false
is_identical (some q) ticket = q.ticket.id == ticket.id

-- `ReplayTicket::fence_is_current`
abbrev pub fence_is_current : Generations → OperationGeneration → Option Fence → Bool
fence_is_current generations generation none = true
fence_is_current generations generation (some f) =
    f.generation == generation && is_current generations f

unfoldable pub is_current_ticket : AutoRecoveryService → Generations → ReplayTicket → Bool
is_current_ticket s generations ticket =
    fence_is_current generations ticket.generation ticket.fence
    && is_identical (lookup (key ticket.work) s.entries) ticket

-- An update of the queued work with the identity of the ticket, where it is still queued.
abbrev pub update_if :
    AutoRecoveryService → ReplayTicket → (Queued → Queued) → Option Queued → AutoRecoveryService
update_if s ticket f none = s
update_if s ticket f (some q) =
    if q.ticket.id == ticket.id
    then record s { entries = insert (key ticket.work) (f q) s.entries }
    else s

abbrev pub with_work : Queued → RecoveryWork → Queued
with_work q work = record q { ticket = record (q.ticket) { work = work } }

pub data RecoveryStageTransition : Type 0 where
  advanced unchanged_stage superseded_stage : RecoveryStageTransition

abbrev command_of : PendingMutation → Option PendingMutation
command_of legacy = none
command_of (commit _ c) = Option.map PendingMutation.notify c
command_of (fenced_commit _ c) = Option.map PendingMutation.notify c
command_of (cold_expire _ c) = Option.map PendingMutation.notify c
command_of (PendingMutation.notify _) = none

abbrev ok_of : Result MarkerMutationRecovery RecoveryError → Option RecoveryWork
ok_of (ok next) = some (marker_mutation next)
ok_of (err e) = none

abbrev after_population : MarkerMutationPhase → MarkerMutationRecovery → Option RecoveryWork
after_population (populate options _ _) w =
    if options.skip_backplane_notifications then none else ok_of (notification w)
after_population (advance _ _) w = none
after_population (notify _) w = none

-- The work that is left of it once only the notification is missing, if that is a stage of it.
pub notification_work : RecoveryWork → Option RecoveryWork
notification_work (data_work i m) = Option.map (data_work i) (command_of m)
notification_work (marker_work c advance_and_notify) = some (marker_work c notify_only)
notification_work (marker_work c advance_only) = none
notification_work (marker_work c notify_only) = none
notification_work (marker_mutation w) = after_population w.phase w
notification_work (marker_snapshot _) = none

abbrev pub stage_over :
    AutoRecoveryService
    → ReplayTicket
    → (RecoveryWork → Option RecoveryWork)
    → Option Queued
    → AutoRecoveryService × RecoveryStageTransition
stage_over s ticket f none = (s, superseded_stage)
stage_over s ticket f (some q) =
    if q.ticket.id == ticket.id
    then elim (f q.ticket.work) [
      | none ↦ (s, unchanged_stage)
      | some work ↦
          (record s { entries = insert (key ticket.work) (with_work q work) s.entries }, advanced)
    ]
    else (s, superseded_stage)

unfoldable pub notification_stage :
    AutoRecoveryService → ReplayTicket → AutoRecoveryService × RecoveryStageTransition
unfolding notification_work
notification_stage s ticket =
    stage_over s ticket notification_work (lookup (key ticket.work) s.entries)

unfoldable pub marker_population_stage :
    AutoRecoveryService
    → ReplayTicket
    → MarkerMutationRecovery
    → AutoRecoveryService × RecoveryStageTransition
marker_population_stage s ticket w =
    stage_over s ticket (λ _. some (marker_mutation w)) (lookup (key ticket.work) s.entries)

-- The attempts after a failed one: none after the last.
abbrev pub attempts_left : Option ℕ → Option (Option ℕ)
attempts_left none = some none
attempts_left (some n) = if leb n 1 then none else some (some (n - 1))

abbrev pub failed_over :
    AutoRecoveryService → ReplayTicket → Queued → Option (Option ℕ) → AutoRecoveryService
failed_over s ticket q none = record s { entries = remove (key ticket.work) s.entries }
failed_over s ticket q (some left) = record s {
  entries = insert (key ticket.work) (record q { remaining = left; state = pending }) s.entries;
}

abbrev pub fail_over : AutoRecoveryService → ReplayTicket → Option Queued → AutoRecoveryService
fail_over s ticket none = s
fail_over s ticket (some q) =
    if q.ticket.id == ticket.id then failed_over s ticket q (attempts_left q.remaining) else s

unfoldable pub record_failure : AutoRecoveryService → ReplayTicket → AutoRecoveryService
record_failure s ticket = fail_over s ticket (lookup (key ticket.work) s.entries)

-- The drop of a `ReplayClaim` whose replay did not finish.
unfoldable pub release_claim : AutoRecoveryService → ReplayTicket → AutoRecoveryService
release_claim s ticket =
    update_if s ticket (λ q. record q { state = pending }) (lookup (key ticket.work) s.entries)

abbrev pub claim_over :
    AutoRecoveryService → RecoveryKey → Option Queued → AutoRecoveryService × Option ReplayTicket
claim_over s k none = (s, none)
claim_over s k (some q) = elim q.state [
  | in_flight ↦ (s, none)
  | pending ↦
      (record s { entries = insert k (record q { state = in_flight }) s.entries }, some q.ticket)
]

unfoldable pub claim : AutoRecoveryService → RecoveryKey → AutoRecoveryService × Option ReplayTicket
claim s k = claim_over s k (lookup k s.entries)
