-- ===== src/Recovery/Service.antt =====
-- src/recovery.rs: `AutoRecoveryService`, the bounded queue of work to be replayed. Each method is
-- one critical section of the queue's mutex; `now` is the clock's reading and `generations` the
-- present generations of the key lanes. The worker and the barrier that paces it are not here.
pub mod Replay
pub mod Drain
pub mod Capacity
pub mod Order
use amalgam.Prelude.{
  ℕ, ◌+◌, Bool, true, false, not, Option, none, some, List, [], ◌∷◌, ◌&&◌, ltb, leb, length,
  if◌then◌else◌,
}
use mathlib.Core.Option
use amalgam.Prelude.Int.{leb_ℤ, ltb_ℤ}
use amalgam.Prelude.Assoc.{lookup, insert, remove}
use amalgam.Prelude.Result.{Result, ok, err, ◌>>=◌}
use amalgam.Time.Duration.{Duration, is_zero}
use amalgam.Time.Timestamp.{Timestamp, max_timestamp}
use amalgam.Recovery.MarkerWork.{
  RecoveryError, zero_delay, invalid_barrier, stopped, identity_exhausted, MarkerMutationRecovery,
  inherit_compaction, committed_notification,
}
use amalgam.Recovery.Work.{
  RecoveryConfig, OperationGeneration, u64_max, Fence, Generations, is_current, notify_only,
  RecoveryWork, marker_work, marker_mutation, RecoveryKey, item, key, expires_at, supersedes,
  key_Eq,
}

pub record ReplayTicket : Type 0 where
  pub id : ℕ
  pub work : RecoveryWork
  pub generation : OperationGeneration
  pub fence : Option Fence

pub data AttemptState : Type 0 where
  pending in_flight : AttemptState

pub record Queued : Type 0 where
  pub ticket : ReplayTicket
  pub remaining : Option ℕ
  pub state : AttemptState

abbrev pub Entries : Type 0
Entries = List (RecoveryKey × Queued)

-- `AutoRecoveryService` and its `QueueState`.
pub record AutoRecoveryService : Type 0 where
  pub config : RecoveryConfig
  pub entries : Entries
  pub next_id : Option ℕ
  pub is_stopped : Bool

-- `try_new`; `overflows` tells whether an instant that far ahead is beyond the runtime's clock.
unfoldable pub try_new :
    (Duration → Bool) → RecoveryConfig → Result AutoRecoveryService RecoveryError
try_new overflows config =
    if config.enabled && is_zero config.delay
    then err zero_delay
    else if config.enabled && overflows config.delay
    then err invalid_barrier
    else ok (record { config = config; entries = []; next_id = some 1; is_stopped = false })

pub data EnqueueOutcome : Type 0 where
  queued replaced : ℕ → EnqueueOutcome
  superseded disabled capacity_rejected expired budget_exhausted : EnqueueOutcome

abbrev is_expired : Option Timestamp → Timestamp → Bool
is_expired none now = false
is_expired (some expiry) now = leb_ℤ expiry now

abbrev pub is_fenced_off : Generations → Option Fence → Bool
is_fenced_off generations none = false
is_fenced_off generations (some f) = not (is_current generations f)

abbrev first_some : Option ℕ → Option ℕ → Option ℕ
first_some (some n) other = some n
first_some none other = other

-- The attempts that are left: one more than the retries.
unfoldable pub budget : RecoveryConfig → RecoveryWork → Option ℕ
budget config work =
    Option.map (λ retries. retries + 1)
      (first_some (Option.bind (item work) (λ i. i.remaining_retries)) config.max_retries)

-- Generations decide between two fenced operations, and the order of the work between others.
abbrev pub not_newer : Option Fence → Option Fence → OperationGeneration → Bool → Bool
not_newer (some f) (some _) existing older = leb f.generation existing
not_newer (some f) none existing older = older
not_newer none existing_fence existing older = older

-- Whether the new work is no newer than the queued one.
abbrev pub is_older : Option Fence → RecoveryWork → ReplayTicket → Bool
is_older fence work ticket =
    not_newer fence ticket.fence ticket.generation (not (supersedes work ticket.work))

-- Work that replaces a marker mutation takes over the mutation's independent compaction.
abbrev notified : MarkerMutationRecovery → RecoveryWork → RecoveryWork
notified next work = elim next.compaction [ some _ ↦ marker_mutation next | none ↦ work ]

abbrev pub inherit : RecoveryWork → RecoveryWork → Result RecoveryWork RecoveryError
inherit (marker_mutation next) (marker_mutation previous) =
    inherit_compaction next previous >>= λ w. ok (marker_mutation w)
inherit (marker_work command notify_only) (marker_mutation previous) =
    inherit_compaction (committed_notification command) previous >>= λ w.
    ok (notified w (marker_work command notify_only))
inherit work previous = ok work

-- `min_by_key` over the entries that can expire; among equals the first of the list.
abbrev sooner : Option (RecoveryKey × Timestamp) → RecoveryKey → Timestamp → RecoveryKey × Timestamp
sooner none k expiry = (k, expiry)
sooner (some (j, best)) k expiry = if ltb_ℤ best expiry then (j, best) else (k, expiry)

unfoldable pub victim : Entries → Option (RecoveryKey × Timestamp)
victim [] = none
victim ((k, q) ∷ m) =
    let rest = victim m in
    elim (expires_at q.ticket.work) [ none ↦ rest | some expiry ↦ some (sooner rest k expiry) ]

abbrev pub evict : Option (RecoveryKey × Timestamp) → Timestamp → Entries → Entries
evict none bound entries = entries
evict (some (k, expiry)) bound entries = if ltb_ℤ expiry bound then remove k entries else entries

-- The entries after an eviction where one is called for, and whether there is room.
unfoldable pub room : Option ℕ → RecoveryWork → Entries → Entries × Bool
unfolding victim
room none work entries = (entries, true)
room (some limit) work entries =
    if ltb (length entries) limit
    then (entries, true)
    else let left =
        evict (victim entries) (Option.get_or (expires_at work) max_timestamp) entries in
      (left, ltb (length left) limit)

abbrev pub opens : Option ℕ → Option ℕ
opens none = none
opens (some id) = if ltb id u64_max then some (id + 1) else none

-- The generation of unfenced work is its identity.
abbrev own_generation : Option Fence → ℕ → OperationGeneration
own_generation none id = id
own_generation (some f) id = f.generation

abbrev pub fresh_queued : RecoveryConfig → RecoveryWork → RecoveryWork → Option Fence → ℕ → Queued
fresh_queued config work merged fence id = record {
  ticket = record { id = id; work = merged; generation = own_generation fence id; fence = fence };
  remaining = budget config work;
  state = pending;
}

-- The end of `enqueue_work`: an identity is taken and the work installed.
unfoldable pub install :
    AutoRecoveryService
    → RecoveryWork
    → RecoveryWork
    → Option Fence
    → Option ℕ
    → (ℕ → EnqueueOutcome)
    → AutoRecoveryService × Result EnqueueOutcome RecoveryError
install s work merged fence none outcome = (s, err identity_exhausted)
install s work merged fence (some id) outcome = (
  record s {
    entries = insert (key work) (fresh_queued s.config work merged fence id) s.entries;
    next_id = opens (some id);
  },
  ok (outcome id),
)

-- New work that finds queued work under its key: refused, or merged and installed in its place.
abbrev replace_merged :
    AutoRecoveryService
    → RecoveryWork
    → Option Fence
    → Result RecoveryWork RecoveryError
    → AutoRecoveryService × Result EnqueueOutcome RecoveryError
replace_merged s work fence (err e) = (s, err e)
replace_merged s work fence (ok merged) = install s work merged fence s.next_id replaced

unfoldable pub admit_over :
    AutoRecoveryService
    → RecoveryWork
    → Option Fence
    → ReplayTicket
    → AutoRecoveryService × Result EnqueueOutcome RecoveryError
unfolding install
admit_over s work fence existing =
    if is_older fence work existing
    then (s, ok superseded)
    else replace_merged s work fence (inherit work existing.work)

-- New work under a free key: admitted where there is room, after an eviction if need be.
unfoldable pub admit_new :
    AutoRecoveryService
    → RecoveryWork
    → Option Fence
    → AutoRecoveryService × Result EnqueueOutcome RecoveryError
unfolding install room
admit_new s work fence =
    let (left, fits) = room s.config.max_items work s.entries in
    if fits
    then install (record s { entries = left }) work work fence s.next_id queued
    else (record s { entries = left }, ok capacity_rejected)

-- The critical section of `enqueue_work`.
abbrev admit :
    AutoRecoveryService
    → RecoveryWork
    → Option Fence
    → Option Queued
    → AutoRecoveryService × Result EnqueueOutcome RecoveryError
admit s work fence none = admit_new s work fence
admit s work fence (some existing) = admit_over s work fence existing.ticket

-- `stop` between the two tests of it is the same as before the first.
unfoldable pub enqueue_work :
    AutoRecoveryService
    → RecoveryWork
    → Option Fence
    → Timestamp
    → Generations
    → AutoRecoveryService × Result EnqueueOutcome RecoveryError
unfolding admit_new admit_over
enqueue_work s work fence now generations =
    if not s.config.enabled
    then (s, ok disabled)
    else if s.is_stopped
    then (s, err RecoveryError.stopped)
    else if is_expired (expires_at work) now
    then (s, ok expired)
    else if is_fenced_off generations fence
    then (s, ok superseded)
    else admit s work fence (lookup (key work) s.entries)

-- Stopping discards the queue.
unfoldable pub stop : AutoRecoveryService → AutoRecoveryService
stop s = record s { entries = []; is_stopped = true }
