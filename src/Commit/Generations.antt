-- ===== src/Commit/Generations.antt =====
-- src/commit.rs: the generation of a key lane, and the fences that it hands out. Every access to an
-- atomic counter and every critical section on the timestamp is one step of a task; any number of
-- tasks run in any order, and the epoch of the cache moves beside them.
pub mod Held
pub mod Invariant
pub mod Safety
mod Tests
use amalgam.Prelude.{
  ℕ, ◌+◌, ◌-◌, ◌^◌, ◌≡◌, Bool, true, Option, none, some, ◌&&◌, ◌==◌, ltb, update, if◌then◌else◌,
}
use amalgam.Prelude.Int.{max_ℤ}
use amalgam.Prelude.Result.{Result, ok, err}
use amalgam.Time.Timestamp.{Timestamp}
use amalgam.Recovery.MarkerWork.{RecoveryError, generation_exhausted}
use amalgam.Recovery.Work.{u64_max}

-- What the tasks share: `KeyLane`, and the epoch of the cache.
pub record Shared : Type 0 where
  pub generation : ℕ
  pub timestamp : Option Timestamp
  pub epoch : ℕ

pub record Fence : Type 0 where
  pub generation : ℕ
  pub captured_epoch : ℕ

-- `fetch_update` with `checked_add(1)`, one atomic step.
pub advance_revision : Shared → Shared × Result ℕ RecoveryError
advance_revision s =
    if ltb s.generation u64_max
    then (record s { generation = s.generation + 1 }, ok (s.generation + 1))
    else (s, err generation_exhausted)

-- `stamp.map_or(at, |old| old.max(at))`, under the lock.
abbrev pub latest : Option Timestamp → Timestamp → Timestamp
latest none at = at
latest (some old) at = max_ℤ old at

pub stamp : Shared → Timestamp → Shared
stamp s at = record s { timestamp = some (latest s.timestamp at) }

-- `Fence::is_current` and `Fence::passive_is_current`.
unfoldable pub is_current : Shared → Fence → Bool
is_current s f = s.generation == f.generation

unfoldable pub passive_is_current : Shared → Fence → Bool
unfolding is_current
passive_is_current s f = is_current s f && s.epoch == f.captured_epoch

-- Where a task stands. `snapshot` is the fence of a reader, `advanced` that of a mutation.
pub data Task : Type 0 where
  idle : Task
  refused : Task
  numbered : (at : Timestamp) (generation : ℕ) → Task
  stamped : (at : Timestamp) (generation : ℕ) → Task
  advanced : (at : Timestamp) (fence : Fence) → Task
  loaded : (generation : ℕ) → Task
  snapshot : (fence : Fence) → Task

pub record System : Type 0 where
  pub shared : Shared
  pub task : ℕ → Task

abbrev pub start : ℕ → System
start epoch = record {
  shared = record { generation = 0; timestamp = none; epoch = epoch };
  task = λ i. idle;
}

-- The answer of `advance_revision` decides how an advance at `at` goes on.
abbrev pub numbers : Timestamp → Result ℕ RecoveryError → Task
numbers at (ok generation) = numbered at generation
numbers at (err e) = refused

abbrev pub fence_at : Shared → ℕ → Fence
fence_at s generation = record { generation = generation; captured_epoch = s.epoch }

abbrev pub moves : System → ℕ → Shared → Task → System
moves s i shared task = record { shared = shared; task = update s.task i task }

-- `continuity_gap` of src/cache/runtime.rs, as far as the epoch goes: `checked_add(1)` in one step.
abbrev pub next_epoch : Shared → Shared
next_epoch s = record s { epoch = if ltb s.epoch u64_max then s.epoch + 1 else s.epoch }

-- `advance` is the first three moves, `snapshot` the next two; a fence may be dropped; and a
-- gap in the messages of the backplane moves the epoch.
pub data Step (s t : System) : Type 0 where
  advances :
      (i : ℕ) (at : Timestamp)
      → s.task i ≡ idle
      → t ≡ moves s i (advance_revision s.shared).0 (numbers at (advance_revision s.shared).1)
      → Step s t
  stamps :
      (i : ℕ) (at : Timestamp) (g : ℕ)
      → s.task i ≡ numbered at g
      → t ≡ moves s i (stamp s.shared at) (stamped at g)
      → Step s t
  fences :
      (i : ℕ) (at : Timestamp) (g : ℕ)
      → s.task i ≡ stamped at g
      → t ≡ moves s i s.shared (advanced at (fence_at s.shared g))
      → Step s t
  loads : (i : ℕ) → s.task i ≡ idle → t ≡ moves s i s.shared (loaded s.shared.generation) → Step s t
  captures :
      (i : ℕ) (g : ℕ)
      → s.task i ≡ loaded g
      → t ≡ moves s i s.shared (snapshot (fence_at s.shared g))
      → Step s t
  drops : (i : ℕ) → t ≡ moves s i s.shared idle → Step s t
  gaps : t ≡ record s { shared = next_epoch s.shared } → Step s t

pub data Run (s : System) : System → Type 0 where
  here : Run s s
  next : {t u : System} → Run s t → Step t u → Run s u
