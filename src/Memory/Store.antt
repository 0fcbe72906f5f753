-- ===== src/Memory/Store.antt =====
-- src/memory.rs: the operations of `MemoryStore` over the store with limits. Each is one critical
-- section of its mutex, but for a write whose entry is already expired, which does not reach it.
pub mod Session
pub mod Growth
pub mod Registry
pub mod Counters
pub mod Fence
pub mod Registration
pub mod Reach
pub mod Stale
pub mod Limits
pub mod Requests
pub mod Demand
pub mod Reads
pub mod Mutations
pub mod Refinement
use amalgam.Prelude.{
  ℕ, ◌+◌, Bool, true, false, not, Option, none, some, List, [], ◌∷◌, ◌==◌, ltb, map, if◌then◌else◌,
}
use amalgam.Prelude.Assoc.{lookup}
use amalgam.Prelude.Text.{Text, text_Eq}
use amalgam.Prelude.Result.{Result, ok, err, map_ok}
use amalgam.Time.Timestamp.{Timestamp}
use amalgam.Entry.Envelope.{is_physically_expired}
use amalgam.Recovery.MarkerWork.{RecoveryError, generation_exhausted}
use amalgam.Recovery.Work.{u64_max}
use amalgam.Memory.{
  MemoryAdmission, rejected, physically_expired, MemoryWriteEvent, CaptureAdmission,
  RetirementReason, explicit, Handle, Retirement,
}
use amalgam.Memory.Origins.{Origins, capture_from, advance, bumped, RevisionSnapshot, matches}
use amalgam.Memory.Eviction.{Stored}
use amalgam.Memory.Retention.{
  Moment, Expected, any_entry, absent, mutation, same, mutation_of, origin, Retention, take, retire,
  retired_of,
}
use amalgam.Memory.Retention.Insert.{insert_entry, matches_current}

-- The snapshot of a capture that did not fail.
abbrev pub snapshot_of : ℕ → ℕ × ℕ → RevisionSnapshot
snapshot_of generation (revision, captured) = record {
  revision = revision;
  captured = captured;
  generation = generation;
}

module _ {ℓ} {V : Type ℓ} where
  -- `invalidate_origin`
  unfoldable pub invalidate_origin : Moment → Retention V → Text → Retention V
  invalidate_origin at r key = record r { origins = advance at.alive r.origins key }

  unfoldable pub capture_revision :
      Moment → Retention V → Text → Option ℕ → Retention V × Result RevisionSnapshot RecoveryError
  unfolding capture_from
  capture_revision at r key provided =
      if r.generation == u64_max
      then (r, err generation_exhausted)
      else (let (o, result) = capture_from at.alive r.origins key provided in
          (record r { origins = o }, map_ok (snapshot_of r.generation) result))

  unfoldable pub skip_revision : Moment → Retention V → Text → RevisionSnapshot → Retention V × Bool
  unfolding invalidate_origin
  skip_revision at r key s =
      if matches r.origins s r.generation then (invalidate_origin at r key, true) else (r, false)

  abbrev pub is_mutation : Expected V → Bool
  is_mutation mutation = true
  is_mutation any_entry = false
  is_mutation absent = false
  is_mutation (same h) = false
  is_mutation (mutation_of h) = false
  is_mutation (origin s) = false

  -- An entry that is expired is refused, and a plain mutation still fences factories off.
  unfoldable pub apply_write :
      Moment
      → Retention V
      → Text
      → Handle V
      → Timestamp
      → Expected V
      → CaptureAdmission
      → MemoryWriteEvent
      → Retention V × (MemoryAdmission × List (Retirement V))
  unfolding invalidate_origin insert_entry
  apply_write at r key h now expected capture event =
      if is_physically_expired h.entry now
      then (
        if is_mutation expected then invalidate_origin at r key else r,
        (rejected physically_expired, []),
      )
      else insert_entry at r key h now expected capture event

  abbrev explicitly : Stored V → RetirementReason
  explicitly s = explicit

  unfoldable pub detach_remove : Moment → Retention V → Text → Retention V × List (Retirement V)
  unfolding invalidate_origin take
  detach_remove at r key =
      let (r', found) = take (invalidate_origin at r key) key in
      (r', retired_of explicitly key found [])

  abbrev pub expects : Option (Handle V) → Option (Stored V) → Bool
  expects none current = true
  expects (some h) current = matches_current h current

  -- `removed`: an explicit removal, of a given representation or of any.
  unfoldable pub remove_value :
      Retention V → Text → Option (Handle V) → Retention V × List (Retirement V)
  unfolding take
  remove_value r key expected =
      if expects expected (lookup key r.entries)
      then (let (r', found) = take r key in (r', retired_of explicitly key found []))
      else (r, [])

  abbrev retire_all : List (Text × Stored V) → List (Retirement V)
  retire_all [] = []
  retire_all ((k, s) ∷ m) = retire s k explicit ∷ retire_all m

  unfoldable pub invalidate_all : Retention V → Retention V × List (Retirement V)
  invalidate_all r = (
    record r { generation = bumped r.generation; entries = []; weight = 0 },
    retire_all r.entries,
  )
