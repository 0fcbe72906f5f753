-- ===== src/Options/Builders/Calls.antt =====
-- src/options.rs: options built by any sequence of builder calls.
use amalgam.Prelude.{◌≡◌, refl, Bool, true, false, Option, List, [], ◌∷◌, if◌then◌else◌}
use amalgam.Prelude.Int.{ℤ, pos, negsuc}
use amalgam.Time.Duration.{Duration}
use amalgam.Time.Timeout.{Timeout}
use amalgam.Options.Values.{EagerThreshold, EntryWeight, Priority}
use amalgam.Options.Entry.{EntryOptions, options_for}
use amalgam.Options.Budgets.{budget_state, refresh_budgets}
use amalgam.Options.Builders.{
  with_duration, with_memory_duration, with_distributed_duration, with_eager_refresh,
  with_jitter_max, with_fail_safe, with_priority, with_size, with_entry_weight,
  with_allow_stale_on_read_only, with_skip_memory, with_skip_distributed,
  with_skip_distributed_read_when_stale, with_distributed_fail_safe_max_duration,
  with_rethrow_distributed_exceptions, with_rethrow_distributed_locker_exceptions,
  with_rethrow_backplane_exceptions, with_rethrow_serialization_exceptions,
  with_allow_background_backplane_operations, with_allow_background_distributed_operations,
  with_skip_backplane_notifications, with_skip_distributed_locker, with_enable_auto_clone,
  with_lock_timeout, with_memory_lock_timeout, with_distributed_lock_timeout, with_factory_timeouts,
  with_distributed_timeouts,
}

pub data Call : Type 0 where
  duration memory_duration distributed_duration jitter_max : Duration → Call
  distributed_fail_safe_max_duration : Duration → Call
  eager_refresh : Option EagerThreshold → Call
  fail_safe : Bool → Option Duration → Option Duration → Call
  priority : Priority → Call
  legacy_size : ℤ → Call
  entry_weight : EntryWeight → Call
  skip_memory skip_distributed : Bool → Bool → Call
  allow_stale skip_read_when_stale rethrow_distributed rethrow_locker : Bool → Call
  rethrow_backplane rethrow_serialization background_backplane : Bool → Call
  background_distributed skip_notifications skip_locker auto_clone : Bool → Call
  lock_timeout memory_lock_timeout distributed_lock_timeout : Timeout → Call
  factory_timeouts : Timeout → Timeout → Bool → Call
  distributed_timeouts : Timeout → Timeout → Call

pub apply : (Duration → Bool) → EntryOptions → Call → EntryOptions
apply f o (duration d) = with_duration o d
apply f o (memory_duration d) = with_memory_duration o d
apply f o (distributed_duration d) = with_distributed_duration o d
apply f o (jitter_max d) = with_jitter_max o d
apply f o (distributed_fail_safe_max_duration d) = with_distributed_fail_safe_max_duration o d
apply f o (eager_refresh t) = with_eager_refresh o t
apply f o (fail_safe b m t) = with_fail_safe o b m t
apply f o (priority p) = with_priority o p
apply f o (legacy_size z) = with_size o z
apply f o (entry_weight w) = with_entry_weight o w
apply f o (skip_memory r w) = with_skip_memory o r w
apply f o (skip_distributed r w) = with_skip_distributed o r w
apply f o (allow_stale b) = with_allow_stale_on_read_only o b
apply f o (skip_read_when_stale b) = with_skip_distributed_read_when_stale o b
apply f o (rethrow_distributed b) = with_rethrow_distributed_exceptions o b
apply f o (rethrow_locker b) = with_rethrow_distributed_locker_exceptions o b
apply f o (rethrow_backplane b) = with_rethrow_backplane_exceptions o b
apply f o (rethrow_serialization b) = with_rethrow_serialization_exceptions o b
apply f o (background_backplane b) = with_allow_background_backplane_operations o b
apply f o (background_distributed b) = with_allow_background_distributed_operations o b
apply f o (skip_notifications b) = with_skip_backplane_notifications o b
apply f o (skip_locker b) = with_skip_distributed_locker o b
apply f o (auto_clone b) = with_enable_auto_clone o b
apply f o (lock_timeout t) = with_lock_timeout f o t
apply f o (memory_lock_timeout t) = with_memory_lock_timeout f o t
apply f o (distributed_lock_timeout t) = with_distributed_lock_timeout f o t
apply f o (factory_timeouts s h b) = with_factory_timeouts f o s h b
apply f o (distributed_timeouts s h) = with_distributed_timeouts f o s h

-- Each call has its own look at the clock, which tells what overflows.
pub build : EntryOptions → List ((Duration → Bool) × Call) → EntryOptions
build o [] = o
build o ((f, c) ∷ cs) = build (apply f o c) cs

-- The calls that set a time budget.
abbrev sets_budget : Call → Bool
sets_budget (lock_timeout t) = true
sets_budget (memory_lock_timeout t) = true
sets_budget (distributed_lock_timeout t) = true
sets_budget (factory_timeouts s h b) = true
sets_budget (distributed_timeouts s h) = true
sets_budget _ = false

-- What overflowed when a budget was last set.
abbrev pub sampled : (Duration → Bool) → List ((Duration → Bool) × Call) → Duration → Bool
sampled f [] = f
sampled f ((g, c) ∷ cs) = sampled (if sets_budget c then g else f) cs

-- The budget state is the one that the present timeouts would be given.
abbrev pub IsFresh : (Duration → Bool) → EntryOptions → Type 0
IsFresh f o = budget_state f o ≡ o.budgets

refresh-IsFresh : (f : Duration → Bool) (o : EntryOptions) → IsFresh f (refresh_budgets f o)
unfolding refresh_budgets
refresh-IsFresh f o = refl

with_size-IsFresh :
    (f : Duration → Bool) (o : EntryOptions) (z : ℤ) → IsFresh f o → IsFresh f (with_size o z)
unfolding with_size refresh_budgets
with_size-IsFresh f o (pos n) v = v
with_size-IsFresh f o (negsuc n) v = v

plain : Unit {0}
unfolding refresh_budgets with_duration with_memory_duration with_distributed_duration
    with_eager_refresh with_jitter_max with_fail_safe with_priority with_entry_weight
    with_allow_stale_on_read_only with_skip_memory with_skip_distributed
    with_skip_distributed_read_when_stale with_distributed_fail_safe_max_duration
    with_rethrow_distributed_exceptions with_rethrow_distributed_locker_exceptions
    with_rethrow_backplane_exceptions with_rethrow_serialization_exceptions
    with_allow_background_backplane_operations with_allow_background_distributed_operations
    with_skip_backplane_notifications with_skip_distributed_locker with_enable_auto_clone
    with_lock_timeout with_memory_lock_timeout with_distributed_lock_timeout with_factory_timeouts
    with_distributed_timeouts
plain = tt

apply-IsFresh :
    (f g : Duration → Bool) (o : EntryOptions) (c : Call)
    → IsFresh f o
    → IsFresh (if sets_budget c then g else f) (apply g o c)
unfolding apply plain
apply-IsFresh f g o (legacy_size z) v = with_size-IsFresh f o z v
apply-IsFresh f g o (lock_timeout t) v = refl
apply-IsFresh f g o (memory_lock_timeout t) v = refl
apply-IsFresh f g o (distributed_lock_timeout t) v = refl
apply-IsFresh f g o (factory_timeouts s h b) v = refl
apply-IsFresh f g o (distributed_timeouts s h) v = refl
apply-IsFresh f g o (duration d) v = v
apply-IsFresh f g o _ v = v

pub build-IsFresh :
    (f : Duration → Bool) (o : EntryOptions) (cs : List ((Duration → Bool) × Call))
    → IsFresh f o
    → IsFresh (sampled f cs) (build o cs)
unfolding build
build-IsFresh f o [] v = v
build-IsFresh f o ((g, c) ∷ cs) v =
    build-IsFresh (if sets_budget c then g else f) (apply g o c) cs (apply-IsFresh f g o c v)

pub start-IsFresh : (f : Duration → Bool) (d : Duration) → IsFresh f (options_for d)
unfolding refresh_budgets
start-IsFresh f d = refl
