-- ===== src/Recovery/Service/Drain.antt =====
-- src/recovery.rs: a pass over the queue, and the barrier that delays it. The executor of a ticket
-- is a parameter: it answers with an outcome, and leaves the queue in another state, since callers
-- may change the queue while it runs. So are the clock and the generations it reads for a ticket.
pub mod Release
use amalgam.Prelude.{
  ℕ, ◌+◌, Bool, true, false, not, Option, none, some, List, [], ◌∷◌, ◌||◌, ltb, if◌then◌else◌,
}
use amalgam.Prelude.Int.{leb_ℤ}
use amalgam.Prelude.Result.{Result, ok, err}
use amalgam.Time.Duration.{Duration}
use amalgam.Time.Timestamp.{Timestamp}
use amalgam.Recovery.MarkerWork.{RecoveryError, invalid_barrier}
use amalgam.Recovery.Work.{Generations, RecoveryKey, key_Eq, expires_at}
use amalgam.Recovery.Service.{ReplayTicket, Queued, Entries, AutoRecoveryService}
use amalgam.Recovery.Service.Replay.{
  claim, complete, record_failure, release_claim, fence_is_current,
}

pub data ReplayOutcome : Type 0 where
  paused applied superseded expired : ReplayOutcome

pub data RecoveryBarrier : Type 0 where
  ready disconnected : RecoveryBarrier
  after : ℕ → RecoveryBarrier

abbrev pub is_paused : RecoveryBarrier → ℕ → Bool
is_paused ready instant = false
is_paused disconnected instant = true
is_paused (after until) instant = ltb instant until

-- The barrier after `pause_after_reconnect`, at an instant of the runtime's clock.
abbrev pub pause_after_reconnect :
    (Duration → Bool) → ℕ → AutoRecoveryService → Result RecoveryBarrier RecoveryError
pause_after_reconnect overflows instant s =
    if overflows s.config.delay then err invalid_barrier else ok (after (instant + s.config.delay))

-- What a pass uses: the executor, the clock and the generations of the lanes.
pub record Executor {ℓ} (E : Type ℓ) : Type ℓ where
  pub replay_ticket :
      AutoRecoveryService → ReplayTicket → AutoRecoveryService × Result ReplayOutcome E
  pub now : ReplayTicket → Timestamp
  pub generations : ReplayTicket → Generations

abbrev pub has_lapsed : Option Timestamp → Timestamp → Bool
has_lapsed none now = false
has_lapsed (some expiry) now = leb_ℤ expiry now

abbrev pub settle {ℓ} :
    {E : Type ℓ} → ReplayTicket → AutoRecoveryService × Result ReplayOutcome E → AutoRecoveryService
settle ticket (s, ok paused) = release_claim s ticket
settle ticket (s, ok applied) = (complete s ticket).0
settle ticket (s, ok superseded) = (complete s ticket).0
settle ticket (s, ok expired) = (complete s ticket).0
settle ticket (s, err e) = record_failure s ticket

abbrev pub keys_of : Entries → List RecoveryKey
keys_of [] = []
keys_of ((k, q) ∷ m) = k ∷ keys_of m

module _ {ℓ} {E : Type ℓ} (executor : Executor E) where
  abbrev pub replay_claimed : AutoRecoveryService × Option ReplayTicket → AutoRecoveryService
  replay_claimed (s, none) = s
  replay_claimed (s, some ticket) =
      if has_lapsed (expires_at ticket.work) (executor.now ticket)
        || not (fence_is_current (executor.generations ticket) ticket.generation ticket.fence)
      then (complete s ticket).0
      else settle ticket (executor.replay_ticket s ticket)

  unfoldable pub drain_keys : List RecoveryKey → AutoRecoveryService → AutoRecoveryService
  unfolding claim
  drain_keys [] s = s
  drain_keys (k ∷ ks) s = drain_keys ks (replay_claimed (claim s k))

  unfoldable pub drain_once : RecoveryBarrier → ℕ → AutoRecoveryService → AutoRecoveryService
  unfolding drain_keys
  drain_once barrier instant s =
      if is_paused barrier instant then s else drain_keys (keys_of s.entries) s
