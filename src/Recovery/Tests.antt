-- ===== src/Recovery/Tests.antt =====
-- src/recovery.rs and src/recovery/marker_snapshots.rs: a queue of one operation, replaced and
-- replayed.
use mathlib.Core.Option
use amalgam.Prelude.{ℕ, ◌≡◌, refl, ◌⊎◌, arith, true, false, none, some, [], ◌∷◌}
use amalgam.Prelude.Int.{pos}
use amalgam.Prelude.Text.{Text}
use amalgam.Prelude.Assoc.{lookup, insert, remove}
use amalgam.Prelude.Result.{ok, err}
use amalgam.Options.Values.{KeyModifierMode}
use amalgam.Tags.Marker.{clear_remove}
use amalgam.Backplane.{MarkerCommand}
use amalgam.Recovery.MarkerWork.{
  MarkerMutationRecovery, MarkerMutationPhase, inherit_compaction, completed_compaction,
  with_compaction, zero_delay, generation_exhausted,
}
use amalgam.Recovery.MarkerWork.Debts.{at_least, inherit_keeps}
use amalgam.Recovery.Work.{
  RecoveryConfig, RecoveryAction, RecoveryWork, data_work, remove_key, commit, key, key_Eq,
  RecoveryKey, supersedes, next_generation, u64_max,
}
use amalgam.Recovery.Service.{
  AutoRecoveryService, ReplayTicket, try_new, stop, enqueue_work, admit_new, install, room, budget,
  pending,
}
use amalgam.Recovery.Service.Replay.{
  supersede_through, cancel_through, complete, is_current_ticket, notification_stage,
  record_failure, release_claim, claim, is_identical, removed, unchanged, unchanged_stage,
}
use amalgam.Recovery.Service.Drain.{Executor, applied, ready, drain_once}
use amalgam.Recovery.Service.Drain.Release.{waits, drain_once-waits}
use amalgam.Recovery.Service.Replay.Identity.{completes, replay, replay_safe}

abbrev name : Text
name = b'k' ∷ []

abbrev limited : RecoveryConfig
limited = record { enabled = true; delay = 5; max_items = some 1; max_retries = some 0 }

abbrev removal : ℕ → RecoveryWork
removal at =
    data_work
      (record {
        key = name;
        action = RecoveryAction.remove;
        timestamp = pos at;
        expires_at = pos 100;
        remaining_retries = none;
      })
      (commit remove_key none)

abbrev ticket : ℕ → ℕ → ReplayTicket
ticket id at = record { id = id; work = removal at; generation = id; fence = none }

-- The removal of time 3 is queued under the identity 1.
abbrev one : AutoRecoveryService
one = record {
  config = limited;
  entries =
      (key (removal 3), record { ticket = ticket 1 3; remaining = some 1; state = pending }) ∷ [];
  next_id = some 2;
  is_stopped = false;
}

-- An empty queue takes the removal; the last failed attempt, the completion, a mutation that came
-- later and a stop take it away; a mutation that came earlier does not.
queue_runs :
    ((enqueue_work
        (record one { entries = []; next_id = some 1 })
        (removal 3)
        none
        (pos 4)
        (λ _. 0)).0
      ≡ one)
    × ((record_failure one (ticket 1 3)).entries ≡ [])
    × ((complete one (ticket 1 3)).1 ≡ removed)
    × ((supersede_through one name 1).1 ≡ removed)
    × ((cancel_through one name (pos 2)).1 ≡ unchanged)
    × ((stop one).entries ≡ [])
    × (is_current_ticket one (λ _. 0) (ticket 1 3) ≡ true)
    × (release_claim (claim one (key (removal 3))).0 (ticket 1 3) ≡ one)
    × ((notification_stage one (ticket 1 3)).1 ≡ unchanged_stage)
unfolding enqueue_work admit_new install room budget lookup insert remove record_failure complete
    supersede_through cancel_through stop is_current_ticket release_claim claim notification_stage
    Option.bind
queue_runs = (refl, refl, refl, refl, refl, refl, refl, refl, refl)

try_new_refuses : try_new (λ _. false) (record limited { delay = 0 }) ≡ err zero_delay
unfolding try_new
try_new_refuses = refl

generations_end : next_generation u64_max ≡ err generation_exhausted
unfolding next_generation
generations_end = refl

later : supersedes (removal 7) (removal 3) ≡ true
unfolding supersedes
later = refl

-- The ticket of identity 0 was replaced by the one that is queued.
replay_safe_example :
    ((is_identical (lookup (key (removal 2)) one.entries) (ticket 0 2) ≡ true)
      ⊎ (replay one (ticket 0 2) completes ≡ one))
    × ((key (removal 2) ≡ key (removal 3))
        ⊎ (lookup (key (removal 3)) (replay one (ticket 0 2) completes).entries
            ≡ lookup (key (removal 3)) one.entries))
replay_safe_example = replay_safe one (ticket 0 2) completes (key (removal 3))

abbrev clear : ℕ → MarkerCommand
clear at = record {
  source_id = name;
  scope = record {
    key_prefix = [];
    version = name;
    modifier = KeyModifierMode.unmodified;
    physical_prefix = [];
    physical_suffix = [];
  };
  marker = record { kind = clear_remove; version = pos at };
}

abbrev committed : ℕ → MarkerMutationRecovery
committed at = record {
  command = clear at;
  phase = MarkerMutationPhase.notify [];
  compaction = none;
}

-- A mutation of time 9 replaces one that is to announce a clear of time 4.
abbrev announcing : MarkerMutationRecovery
announcing = record (committed 3) { phase = MarkerMutationPhase.notify (clear 4 ∷ []) }

abbrev inheriting : MarkerMutationRecovery
inheriting = record (committed 9) {
  compaction = some (record { command = clear 4; phase = MarkerMutationPhase.notify [] });
}

inherited : inherit_compaction (committed 9) announcing ≡ ok inheriting
unfolding inherit_compaction completed_compaction with_compaction
inherited = refl

inherit_keeps_example :
    (clear 9 ≡ clear 9)
    × (◌≡◌ {A = MarkerMutationPhase}
        (MarkerMutationPhase.notify [])
        (MarkerMutationPhase.notify []))
    × (at_least inheriting.compaction (completed_compaction announcing) ≡ true)
    × (at_least inheriting.compaction none ≡ true)
    × (at_least inheriting.compaction none ≡ true)
inherit_keeps_example = inherit_keeps (committed 9) announcing inheriting inherited

-- An executor that applies every ticket, before any expiry.
abbrev applying : Executor ℕ
applying = record {
  replay_ticket = λ s t. (s, ok applied);
  now = λ t. pos 4;
  generations = λ t n. 0;
}

one-waits : (k : RecoveryKey) → waits k (lookup k one.entries) ≡ true
unfolding lookup
one-waits k = ground arith

drain_once-waits_example :
    waits (key (removal 3)) (lookup (key (removal 3)) (drain_once applying ready 0 one).entries)
    ≡ true
drain_once-waits_example =
    drain_once-waits applying (λ s t h k. h k) ready 0 one one-waits (key (removal 3))
