-- ===== src/Recovery/Service/Replay/Identity.antt =====
-- src/recovery.rs: a replay acts on its own operation only.
use amalgam.Prelude.{
  ℕ, ◌≡◌, refl, ◌⊎◌, inl, inr, true, false, Option, none, some, ◌==◌, arith, Bool-cases,
  Option-cases,
}
use amalgam.Prelude.Assoc.{lookup, insert, remove, lookup-insert, lookup-remove}
use amalgam.Recovery.MarkerWork.{MarkerMutationRecovery}
use amalgam.Recovery.Work.{
  RecoveryWork, marker_mutation, RecoveryKey, key, key_eq, key_eq_iff, key_Eq,
}
use amalgam.Recovery.Service.{ReplayTicket, Queued, Entries, AutoRecoveryService, pending}
use amalgam.Recovery.Service.Replay.{
  complete, record_failure, release_claim, notification_stage, marker_population_stage,
  notification_work, is_identical, attempts_left, fail_over, failed_over, update_if, stage_over,
  with_work,
}

-- What the replay of a ticket may do to the queue.
pub data ReplayStep : Type 0 where
  completes fails gives_up notifies : ReplayStep
  populates : MarkerMutationRecovery → ReplayStep

pub replay : AutoRecoveryService → ReplayTicket → ReplayStep → AutoRecoveryService
replay s ticket completes = (complete s ticket).0
replay s ticket fails = record_failure s ticket
replay s ticket gives_up = release_claim s ticket
replay s ticket notifies = (notification_stage s ticket).0
replay s ticket (populates w) = (marker_population_stage s ticket w).0

replay-stale :
    (s : AutoRecoveryService) (ticket : ReplayTicket) (step : ReplayStep)
    → is_identical (lookup (key ticket.work) s.entries) ticket ≡ false
    → replay s ticket step ≡ s
unfolding replay complete record_failure release_claim notification_stage marker_population_stage
replay-stale s ticket completes h = ground arith
replay-stale s ticket fails h = ground arith
replay-stale s ticket gives_up h = ground arith
replay-stale s ticket notifies h = ground arith
replay-stale s ticket (populates w) h = ground arith

other-insert :
    (j k : RecoveryKey) (q : Queued) (m : Entries)
    → key_eq j k ≡ false
    → lookup k (insert j q m) ≡ lookup k m
other-insert j k q m h = rw (lookup-insert j k q m, h)

other-remove :
    (j k : RecoveryKey) (m : Entries) → key_eq j k ≡ false → lookup k (remove j m) ≡ lookup k m
other-remove j k m h = rw (lookup-remove j k m, h)

failed_over-other :
    (s : AutoRecoveryService) (ticket : ReplayTicket) (q : Queued) (left : Option (Option ℕ))
    (k : RecoveryKey)
    → key_eq (key ticket.work) k ≡ false
    → lookup k (failed_over s ticket q left).entries ≡ lookup k s.entries
failed_over-other s ticket q none k h = other-remove (key ticket.work) k s.entries h
failed_over-other s ticket q (some left) k h =
    other-insert (key ticket.work) k (record q { remaining = left; state = pending }) s.entries h

fail_over-other :
    (s : AutoRecoveryService) (ticket : ReplayTicket) (o : Option Queued) (k : RecoveryKey)
    → key_eq (key ticket.work) k ≡ false
    → lookup k (fail_over s ticket o).entries ≡ lookup k s.entries
fail_over-other s ticket none k h = refl
fail_over-other s ticket (some q) k h = elim (Bool-cases (q.ticket.id == ticket.id)) [
  | inl e ↦ rw e (failed_over-other s ticket q (attempts_left q.remaining) k h)
  | inr e ↦ rw e refl
]

update_if-other :
    (s : AutoRecoveryService) (ticket : ReplayTicket) (f : Queued → Queued) (o : Option Queued)
    (k : RecoveryKey)
    → key_eq (key ticket.work) k ≡ false
    → lookup k (update_if s ticket f o).entries ≡ lookup k s.entries
update_if-other s ticket f none k h = refl
update_if-other s ticket f (some q) k h =
    ground (arith, other-insert (key ticket.work) k (f q) s.entries h)

stage_over-other :
    (s : AutoRecoveryService) (ticket : ReplayTicket) (f : RecoveryWork → Option RecoveryWork)
    (o : Option Queued) (k : RecoveryKey)
    → key_eq (key ticket.work) k ≡ false
    → lookup k (stage_over s ticket f o).0.entries ≡ lookup k s.entries
stage_over-other s ticket f none k h = refl
stage_over-other s ticket f (some q) k h = elim (Option-cases (f q.ticket.work)) [
  | inl e ↦ ground arith
  | inr (work, e) ↦ ground (arith, other-insert (key ticket.work) k (with_work q work) s.entries h)
]

replay-other :
    (s : AutoRecoveryService) (ticket : ReplayTicket) (step : ReplayStep) (k : RecoveryKey)
    → key_eq (key ticket.work) k ≡ false
    → lookup k (replay s ticket step).entries ≡ lookup k s.entries
unfolding replay complete record_failure release_claim notification_stage marker_population_stage
replay-other s ticket completes k h = ground (arith, other-remove (key ticket.work) k s.entries h)
replay-other s ticket fails k h = fail_over-other s ticket (lookup (key ticket.work) s.entries) k h
replay-other s ticket gives_up k h =
    update_if-other s ticket (λ q. record q { state = pending })
      (lookup (key ticket.work) s.entries) k h
replay-other s ticket notifies k h =
    stage_over-other s ticket notification_work (lookup (key ticket.work) s.entries) k h
replay-other s ticket (populates w) k h =
    stage_over-other s ticket (λ _. some (marker_mutation w)) (lookup (key ticket.work) s.entries) k
      h

-- Whatever the replay of a ticket does, it changes nothing unless the operation queued under its
-- key still has its identity, so that a newer replacement is never removed or altered; and what is
-- queued under any other key stays as it is.
pub replay_safe :
    (s : AutoRecoveryService) (ticket : ReplayTicket) (step : ReplayStep) (k : RecoveryKey)
    → ((is_identical (lookup (key ticket.work) s.entries) ticket ≡ true)
        ⊎ (replay s ticket step ≡ s))
      × ((key ticket.work ≡ k) ⊎ (lookup k (replay s ticket step).entries ≡ lookup k s.entries))
replay_safe s ticket step k = (
  elim (Bool-cases (is_identical (lookup (key ticket.work) s.entries) ticket)) [
    | inl e ↦ inl e
    | inr e ↦ inr (replay-stale s ticket step e)
  ],
  elim (Bool-cases (key_eq (key ticket.work) k)) [
    | inl e ↦ inl ((key_eq_iff (key ticket.work) k).0 e)
    | inr e ↦ inr (replay-other s ticket step k e)
  ],
)
