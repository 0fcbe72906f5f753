-- ===== src/Distributed/Envelope/Laws.antt =====
-- src/distributed.rs: what of an entry survives its way through the distributed cache.
use amalgam.Prelude.{
  ◌≡◌, refl, inl, inr, Bool, true, false, not, none, List, [], ◌∷◌, map, all, Bool-cases,
  if◌then◌else◌, arith,
}
use amalgam.Prelude.Int.{ltb_ℤ, min_ℤ, ◌≤ℤ◌}
use amalgam.Prelude.Text.{Text, trim, is_empty}
use amalgam.Prelude.Word.{IsI64}
use amalgam.Prelude.Result.{ok}
use amalgam.Time.Timestamp.{Timestamp, saturating_add, saturating_duration_since}
use amalgam.Time.Timestamp.Laws.{saturating_add_mono}
use amalgam.Options.Entry.{EntryOptions}
use amalgam.Options.Budgets.{validate}
use amalgam.Options.Resolved.{resolved_distributed_duration, distributed_physical_ttl}
use amalgam.Options.Resolved.Laws.{physical_ttl_covers}
use amalgam.Tags.Tag
use amalgam.Tags.Tag.{Tag, try_collect_tags}
use amalgam.Entry.Envelope.{
  Entry, local_entry, is_from_fail_safe, from_fail_safe, EntryOrigin, fresh_origin, fail_safe,
  stored_priority, size, RetentionMetadata, unspecified, specified, retained_size,
  persisted_priority,
}
use amalgam.Entry.Envelope.Laws.{IsWellFormed}
use amalgam.Entry.Fresh.{try_rehydrate_with_retention}
use amalgam.Entry.Reuse.{spend}
use amalgam.Distributed.Envelope.{
  DistributedEntry, DistributedSnapshot, validate_entry, validate_tags, redated, from_entry,
  from_entry_with_options, snapshot_from_entry_with_options, new, try_into_cache_entry,
  try_into_entry_with_retention, retention_of, metadata_of,
}

-- The tags of an entry are tags that construction accepts.
abbrev pub has_text : Tag → Bool
has_text t = not (is_empty (trim t.text))

abbrev pub texts : List Tag → List Text
texts tags = map (λ (t : Tag). t.text) tags

try_collect_tags-texts :
    (tags : List Tag) → all has_text tags ≡ true → try_collect_tags (texts tags) ≡ ok tags
unfolding try_collect_tags Tag.new
try_collect_tags-texts [] h = refl
try_collect_tags-texts (t ∷ tags) h = ground (arith, try_collect_tags-texts tags)

validate_tags-texts :
    (tags : List Tag) → all has_text tags ≡ true → validate_tags (texts tags) ≡ ok tt
unfolding validate_tags Tag.new
validate_tags-texts [] h = refl
validate_tags-texts (t ∷ tags) h = ground (arith, validate_tags-texts tags)

metadata_of-retention_of :
    (r : RetentionMetadata)
    → metadata_of (retention_of (retained_size r) (persisted_priority r)) ≡ r
metadata_of-retention_of unspecified = refl
metadata_of-retention_of (specified w p) = refl

from_fail_safe-spend :
    (origin : EntryOrigin)
    → (if from_fail_safe origin then fail_safe else fresh_origin none) ≡ spend origin
from_fail_safe-spend (fresh_origin at) = refl
from_fail_safe-spend fail_safe = refl

abbrev earlier_of : Bool → Timestamp → Timestamp → Timestamp
earlier_of from_fail_safe at own = if from_fail_safe then min_ℤ at own else at

module _ {ℓ} {V : Type ℓ} (e : Entry V) (o : EntryOptions) (inserted_at : Timestamp) where
  -- The deadlines that an entry has in the distributed cache.
  abbrev pub logical_there : Timestamp
  logical_there =
      earlier_of (is_from_fail_safe e.meta)
        (saturating_add inserted_at (resolved_distributed_duration o)) e.meta.logical_expiration

  abbrev pub physical_there : Timestamp
  physical_there =
      earlier_of (is_from_fail_safe e.meta)
        (saturating_add inserted_at (distributed_physical_ttl o)) e.meta.physical_expiration

  -- The entry as it comes back at `now`.
  abbrev pub arrived : Timestamp → Entry V
  arrived now = record {
    value = e.value;
    meta = record (e.meta) {
      inserted_at = now;
      logical_expiration = logical_there;
      physical_expiration = physical_there;
      backend_ttl = saturating_duration_since physical_there now;
      origin = spend e.meta.origin;
    };
    eligibility = local_entry;
  }

  deadlines_there : IsI64 inserted_at → IsWellFormed e.meta → logical_there ≤ℤ physical_there
  unfolding is_from_fail_safe
  deadlines_there i w =
      let covered =
        saturating_add_mono inserted_at inserted_at (resolved_distributed_duration o)
          (distributed_physical_ttl o) i i (omega arith) (physical_ttl_covers o).1 in
      ground (arith, covered)

  ordered : IsI64 inserted_at → IsWellFormed e.meta → ltb_ℤ physical_there logical_there ≡ false
  ordered i w = ground (arith, deadlines_there i w)

  abbrev there : DistributedEntry V
  there = record {
    value = e.value;
    created_ticks = e.meta.created;
    logical_expiration_ticks = logical_there;
    physical_expiration_ticks = physical_there;
    is_from_fail_safe = is_from_fail_safe e.meta;
    etag = e.meta.etag;
    last_modified_ticks = e.meta.last_modified;
    tags = texts e.meta.tags;
  }

  abbrev sent : DistributedSnapshot V
  sent = record {
    entry = there;
    inserted_at = inserted_at;
    retention = retention_of (size e.meta) (stored_priority e.meta);
  }

  redated_lem :
      redated
        (from_entry e)
        e
        (saturating_add inserted_at (resolved_distributed_duration o))
        (saturating_add inserted_at (distributed_physical_ttl o))
      ≡ there
  unfolding redated from_entry
  redated_lem = elim (Bool-cases (is_from_fail_safe e.meta)) [ inl h ↦ rw h | inr h ↦ rw h ]

  validate_entry-there :
      IsI64 inserted_at
      → IsWellFormed e.meta
      → all has_text e.meta.tags ≡ true
      → validate_entry there ≡ ok tt
  unfolding validate_entry
  validate_entry-there i w t = rw (ordered i w, validate_tags-texts e.meta.tags t)

  from_entry_with_options_lem :
      IsI64 inserted_at
      → IsWellFormed e.meta
      → all has_text e.meta.tags ≡ true
      → validate o ≡ ok tt
      → from_entry_with_options e o inserted_at ≡ ok there
  unfolding from_entry_with_options
  from_entry_with_options_lem i w t v = rw (v, redated_lem, validate_entry-there i w t)

  -- A well-formed entry with nonblank tags and valid options always travels through the distributed
  -- cache from a representable instant: the snapshot is taken, and what comes back has its value,
  -- creation, tags, validators, weight and priority, is fail-safe exactly if it was, and has the
  -- deadlines of the distributed cache, beyond its own for no fail-safe entry.
  pub try_into_cache_entry-from_entry :
      (now : Timestamp)
      → IsI64 inserted_at
      → IsWellFormed e.meta
      → all has_text e.meta.tags ≡ true
      → validate o ≡ ok tt
      → (s : DistributedSnapshot V) × (snapshot_from_entry_with_options e o inserted_at ≡ ok s)
        × (try_into_cache_entry s now ≡ ok (arrived now))
  unfolding snapshot_from_entry_with_options new try_into_cache_entry try_into_entry_with_retention
      try_rehydrate_with_retention size stored_priority is_from_fail_safe
  try_into_cache_entry-from_entry now i w t v = (
    sent,
    rw (from_entry_with_options_lem i w t v, validate_entry-there i w t),
    rw (
      try_collect_tags-texts e.meta.tags t,
      ordered i w,
      metadata_of-retention_of e.meta.retention,
      from_fail_safe-spend e.meta.origin,
    ),
  )
