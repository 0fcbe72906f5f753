-- ===== src/Entry/Envelope.antt =====
-- src/entry.rs: an entry, its metadata, and what a read asks of them. An entry is immutable, so
-- that shared handles to one are the same value; cloning a value gives that value.
pub mod Laws
use amalgam.Prelude.{ℕ, Bool, true, false, not, Option, none, some, List, ◌&&◌, ◌==◌, if◌then◌else◌}
use amalgam.Prelude.Int.{ltb_ℤ}
use amalgam.Prelude.Text.{Text}
use amalgam.Time.Duration.{Duration}
use amalgam.Time.Timestamp.{Timestamp, is_before, saturating_duration_since}
use amalgam.Options.Values.{EntryWeight, Priority, normal}
use amalgam.Tags.Tag.{Tag}

pub data Freshness : Type 0 where
  fresh stale : Freshness

abbrev pub is_fresh : Freshness → Bool
is_fresh fresh = true
is_fresh stale = false

-- `Origin.fresh` carries the eager-refresh boundary.
pub data EntryOrigin : Type 0 where
  fresh_origin : Option Timestamp → EntryOrigin
  fail_safe : EntryOrigin

pub data RetentionMetadata : Type 0 where
  unspecified : RetentionMetadata
  specified : Option EntryWeight → Priority → RetentionMetadata

pub record Metadata : Type 0 where
  pub created : Timestamp
  pub inserted_at : Timestamp
  pub logical_expiration : Timestamp
  pub physical_expiration : Timestamp
  pub backend_ttl : Duration
  pub origin : EntryOrigin
  pub etag : Option Text
  pub last_modified : Option Timestamp
  pub tags : List Tag
  pub retention : RetentionMetadata

-- A read fence: the shared epoch counter, by its identity, and the value it had.
pub record ContinuityStamp : Type 0 where
  pub epoch : ℕ
  pub captured : ℕ

-- The present values of the epoch counters.
abbrev pub Epochs : Type 0
Epochs = ℕ → ℕ

abbrev pub is_current : Epochs → ContinuityStamp → Bool
is_current epochs s = epochs s.epoch == s.captured

pub data Eligibility : Type 0 where
  local_entry : Eligibility
  hydrated : ContinuityStamp → Eligibility

-- `EntryInner`, behind the shared handle `Entry`.
pub record Entry {ℓ} (V : Type ℓ) : Type ℓ where
  pub value : V
  pub meta : Metadata
  pub eligibility : Eligibility

abbrev pub retained_size : RetentionMetadata → Option EntryWeight
retained_size unspecified = none
retained_size (specified size _) = size

abbrev pub retained_priority : RetentionMetadata → Priority
retained_priority unspecified = normal
retained_priority (specified _ priority) = priority

unfoldable pub size : Metadata → Option EntryWeight
size m = retained_size m.retention

unfoldable pub priority : Metadata → Priority
priority m = retained_priority m.retention

abbrev pub persisted_priority : RetentionMetadata → Option Priority
persisted_priority unspecified = none
persisted_priority (specified _ priority) = some priority

unfoldable pub stored_priority : Metadata → Option Priority
stored_priority m = persisted_priority m.retention

abbrev pub origin_refresh : EntryOrigin → Option Timestamp
origin_refresh (fresh_origin at) = at
origin_refresh fail_safe = none

unfoldable pub eager_refresh_at : Metadata → Option Timestamp
eager_refresh_at m = origin_refresh m.origin

abbrev pub from_fail_safe : EntryOrigin → Bool
from_fail_safe (fresh_origin _) = false
from_fail_safe fail_safe = true

unfoldable pub is_from_fail_safe : Metadata → Bool
is_from_fail_safe m = from_fail_safe m.origin

abbrev pub eligible : Epochs → Eligibility → Bool
eligible epochs local_entry = true
eligible epochs (hydrated stamp) = is_current epochs stamp

module _ {ℓ} {V : Type ℓ} (e : Entry V) where
  unfoldable pub backend_ttl_at : Timestamp → Duration
  backend_ttl_at now = saturating_duration_since e.meta.physical_expiration now

  unfoldable pub is_read_eligible : Epochs → Bool
  is_read_eligible epochs = eligible epochs e.eligibility

  unfoldable pub freshness : Timestamp → Freshness
  freshness now = if is_before now e.meta.logical_expiration then fresh else stale

  unfoldable pub is_logically_expired : Timestamp → Bool
  is_logically_expired now = not (is_before now e.meta.logical_expiration)

  unfoldable pub is_physically_expired : Timestamp → Bool
  is_physically_expired now = not (is_before now e.meta.physical_expiration)

  unfoldable pub should_eager_refresh : Timestamp → Bool
  unfolding eager_refresh_at
  should_eager_refresh now = elim (eager_refresh_at e.meta) [
    | some at ↦ not (is_before now at) && is_before now e.meta.logical_expiration
    | none ↦ false
  ]
