-- ===== src/Distributed/Envelope.antt =====
-- src/distributed.rs: the wire envelope of an entry, and the snapshot that carries it.
pub mod Laws
use amalgam.Prelude.{Bool, Option, none, some, List, [], ◌∷◌, map, if◌then◌else◌}
use amalgam.Prelude.Int.{ℤ, ltb_ℤ, min_ℤ}
use amalgam.Prelude.Text.{Text}
use amalgam.Prelude.Result.{Result, ok, err, ◌>>=◌, ◌>>◌, reject_if}
use mathlib.Core.Option
use amalgam.Time.Duration.{Duration}
use amalgam.Time.Timestamp.{Timestamp, saturating_add, saturating_duration_since}
use amalgam.Error.{ConfigError, invalid_entry_deadlines}
use amalgam.Options.Values.{EntryWeight, Priority, F32}
use amalgam.Options.Entry.{EntryOptions}
use amalgam.Options.Budgets.{validate}
use amalgam.Options.Resolved.{resolved_distributed_duration, distributed_physical_ttl}
use amalgam.Tags.Tag
use amalgam.Tags.Tag.{Tag, TagError, try_collect_tags}
use amalgam.Entry.Envelope.{
  Entry, RetentionMetadata, is_from_fail_safe, stored_priority, size, Epochs,
}
use amalgam.Entry.Fresh.{try_rehydrate_with_retention}
use amalgam.Entry.Reuse
use amalgam.Entry.Reuse.{with_retention}

-- The causes that an encoder or a decoder reports are errors of other crates, given by their text.
pub data Error : Type 0 where
  config : ConfigError → Error
  invalid_tag : TagError → Error
  serialization : Text → Error
  deserialization : Text → Error

abbrev pub config_error {ℓ} : {A : Type ℓ} → Result A ConfigError → Result A Error
config_error (ok a) = ok a
config_error (err e) = err (config e)

abbrev pub tag_error {ℓ} : {A : Type ℓ} → Result A TagError → Result A Error
tag_error (ok a) = ok a
tag_error (err e) = err (invalid_tag e)

pub record DistributedEntry {ℓ} (V : Type ℓ) : Type ℓ where
  pub value : V
  pub created_ticks : ℤ
  pub logical_expiration_ticks : ℤ
  pub physical_expiration_ticks : ℤ
  pub is_from_fail_safe : Bool
  pub etag : Option Text
  pub last_modified_ticks : Option ℤ
  pub tags : List Text

pub data SnapshotRetention : Type 0 where
  unspecified : SnapshotRetention
  specified : Option EntryWeight → Priority → SnapshotRetention

pub record DistributedSnapshot {ℓ} (V : Type ℓ) : Type ℓ where
  pub entry : DistributedEntry V
  pub inserted_at : Timestamp
  pub retention : SnapshotRetention

-- `for tag in &self.tags { Tag::new(tag)?; }`
validate_tags : List Text → Result (Unit {0}) Error
validate_tags [] = ok tt
validate_tags (t ∷ tags) = do tag ← tag_error (Tag.new t); validate_tags tags

abbrev retention_of : Option EntryWeight → Option Priority → SnapshotRetention
retention_of size (some priority) = specified size priority
retention_of size none = unspecified

abbrev pub metadata_of : SnapshotRetention → RetentionMetadata
metadata_of unspecified = RetentionMetadata.unspecified
metadata_of (specified size priority) = RetentionMetadata.specified size priority

module _ {ℓ} {V : Type ℓ} where
  unfoldable pub validate_entry : DistributedEntry V → Result (Unit {0}) Error
  unfolding validate_tags
  validate_entry e = do
    reject_if (ltb_ℤ e.physical_expiration_ticks e.logical_expiration_ticks)
        (config invalid_entry_deadlines)
    validate_tags e.tags

  pub from_entry : Entry V → DistributedEntry V
  from_entry e = record {
    value = e.value;
    created_ticks = e.meta.created;
    logical_expiration_ticks = e.meta.logical_expiration;
    physical_expiration_ticks = e.meta.physical_expiration;
    is_from_fail_safe = is_from_fail_safe e.meta;
    etag = e.meta.etag;
    last_modified_ticks = e.meta.last_modified;
    tags = map (λ (t : Tag). t.text) e.meta.tags;
  }

  -- The deadlines of the distributed cache; a fail-safe entry keeps its own where they are earlier.
  redated : DistributedEntry V → Entry V → Timestamp → Timestamp → DistributedEntry V
  redated snapshot e logical physical =
      if is_from_fail_safe e.meta
      then record snapshot {
        logical_expiration_ticks = min_ℤ logical e.meta.logical_expiration;
        physical_expiration_ticks = min_ℤ physical e.meta.physical_expiration;
      }
      else record snapshot {
        logical_expiration_ticks = logical;
        physical_expiration_ticks = physical;
      }

  pub from_entry_with_options :
      Entry V → EntryOptions → Timestamp → Result (DistributedEntry V) Error
  unfolding redated
  from_entry_with_options e o inserted_at = do
    config_error (validate o)
    let snapshot =
        redated (from_entry e) e (saturating_add inserted_at (resolved_distributed_duration o))
          (saturating_add inserted_at (distributed_physical_ttl o))
    validate_entry snapshot
    ok snapshot

  pub try_into_entry_with_retention :
      DistributedEntry V → Timestamp → RetentionMetadata → Result (Entry V) Error
  try_into_entry_with_retention e now retention = do
    tags ← tag_error (try_collect_tags e.tags)
    config_error (
        try_rehydrate_with_retention e.value e.created_ticks e.logical_expiration_ticks
          e.physical_expiration_ticks e.is_from_fail_safe e.etag e.last_modified_ticks tags
          retention now)

  pub try_into_entry : DistributedEntry V → Timestamp → Result (Entry V) Error
  unfolding try_into_entry_with_retention
  try_into_entry e now = try_into_entry_with_retention e now RetentionMetadata.unspecified

  -- `DistributedSnapshot::new`
  unfoldable pub new :
      DistributedEntry V → Timestamp → SnapshotRetention → Result (DistributedSnapshot V) Error
  new entry inserted_at retention = do
    validate_entry entry
    ok (record { entry = entry; inserted_at = inserted_at; retention = retention })

  pub backend_ttl_at : DistributedSnapshot V → Timestamp → Duration
  backend_ttl_at s now = saturating_duration_since s.entry.physical_expiration_ticks now

  -- `DistributedSnapshot::from_entry_with_options`
  pub snapshot_from_entry_with_options :
      Entry V → EntryOptions → Timestamp → Result (DistributedSnapshot V) Error
  unfolding from_entry_with_options new
  snapshot_from_entry_with_options e o inserted_at = do
    entry ← from_entry_with_options e o inserted_at
    new entry inserted_at (retention_of (size e.meta) (stored_priority e.meta))

  pub try_into_cache_entry : DistributedSnapshot V → Timestamp → Result (Entry V) Error
  unfolding try_into_entry_with_retention
  try_into_cache_entry s now = try_into_entry_with_retention s.entry now (metadata_of s.retention)

  restored : Entry V → SnapshotRetention → Entry V
  restored e unspecified = e
  restored e (specified size priority) = with_retention e size priority

  -- `DistributedSnapshot::try_into_entry`
  pub snapshot_try_into_entry : DistributedSnapshot V → Timestamp → Result (Entry V) Error
  unfolding try_into_entry restored
  snapshot_try_into_entry s now = do
    entry ← try_into_entry s.entry now
    ok (restored entry s.retention)

  -- `DistributedSnapshot::for_memory_hydration`
  pub snapshot_for_memory_hydration :
      (Duration → F32 → Duration)
      → Epochs
      → DistributedSnapshot V
      → EntryOptions
      → Timestamp
      → Result (Option (Entry V)) Error
  snapshot_for_memory_hydration mul_f32 epochs s o now = do
    entry ← snapshot_try_into_entry s now
    config_error (Reuse.for_memory_hydration entry mul_f32 epochs o now)
