-- ===== src/Entry/Fresh.antt =====
-- src/entry.rs: building entries from fresh values, from wire data and from a fail-safe default.
-- `mul_f32` stands for `Duration::mul_f32`.
pub mod Laws
use mathlib.Core.Option
use amalgam.Prelude.{
  Bool, true, false, not, Option, none, some, List, [], ◌||◌, ◌&&◌, if◌then◌else◌,
}
use amalgam.Prelude.Int.{max_ℤ, min_ℤ, ltb_ℤ}
use amalgam.Prelude.Text.{Text}
use amalgam.Prelude.Result.{Result, ok, err, ◌>>=◌, ◌>>◌, reject_if}
use amalgam.Time.Duration.{Duration, is_zero}
use amalgam.Time.Timestamp.{
  Timestamp, saturating_add, saturating_duration_since, LifetimeSpan, lifetime_span, after,
}
use amalgam.Error.{ConfigError, invalid_entry_deadlines}
use amalgam.Options.Values.{
  EntryWeight, Priority, low, normal, high, never_remove, F32, JitterSample, JitterPlan, standard,
  jitter_sample, random_sample,
}
use amalgam.Options.Entry.{EntryOptions, size}
use amalgam.Options.Resolved.{
  resolved_memory_duration, physical_ttl, logical_expiration_with_jitter,
  eager_refresh_at_expiration,
}
use amalgam.Tags.Tag.{Tag}
use amalgam.Entry.Envelope.{
  Entry, Metadata, RetentionMetadata, unspecified, specified, fresh_origin, fail_safe, local_entry,
}

abbrev pub is_some {ℓ} : {A : Type ℓ} → Option A → Bool
is_some (some _) = true
is_some none = false

abbrev pub is_normal : Priority → Bool
is_normal normal = true
is_normal low = false
is_normal high = false
is_normal never_remove = false

pub record FreshPlan : Type 0 where
  pub logical : LifetimeSpan
  pub physical : LifetimeSpan
  pub retention : RetentionMetadata

unfoldable pub plan_retention : EntryOptions → Option EntryWeight → RetentionMetadata
plan_retention o weight =
    if is_some weight || (not (is_normal o.priority) || o.is_fail_safe_enabled)
    then specified weight o.priority
    else unspecified

-- `FreshPlan::for_options`
unfoldable pub plan_for : EntryOptions → Result (Option FreshPlan) ConfigError
plan_for o =
    if not (is_zero o.jitter_max) || is_some o.eager_refresh_threshold
    then ok none
    else size o >>= λ weight. ok (
        some (record {
          logical = lifetime_span (resolved_memory_duration o);
          physical = lifetime_span (physical_ttl o);
          retention = plan_retention o weight;
        }))

fresh_retention :
    EntryOptions → Option EntryWeight → Option Text → Option Timestamp → RetentionMetadata
fresh_retention o weight etag last_modified =
    if is_some weight
      || (not (is_normal o.priority)
          || (o.is_fail_safe_enabled
              || (is_some o.eager_refresh_threshold || (is_some etag || is_some last_modified))))
    then specified weight o.priority
    else unspecified

module _ {ℓ} {V : Type ℓ} where
  -- `FreshPlan::prepare`
  unfoldable pub prepare : FreshPlan → V → Timestamp → List Tag → Entry V
  prepare plan value now tags =
      let logical_expiration = after plan.logical now in
      let physical_expiration = max_ℤ (after plan.physical now) logical_expiration in
      record {
        value = value;
        meta = record {
          created = now;
          inserted_at = now;
          logical_expiration = logical_expiration;
          physical_expiration = physical_expiration;
          backend_ttl = saturating_duration_since physical_expiration now;
          origin = fresh_origin none;
          etag = none;
          last_modified = none;
          tags = tags;
          retention = plan.retention;
        };
        eligibility = local_entry;
      }

  -- `prepare_fresh_with_jitter`, which `try_fresh_with_jitter` puts behind a handle.
  pub prepare_fresh_with_jitter :
      (Duration → F32 → Duration)
      → V
      → EntryOptions
      → Timestamp
      → Timestamp
      → JitterSample
      → List Tag
      → Option Text
      → Option Timestamp
      → Result (Entry V) ConfigError
  prepare_fresh_with_jitter mul_f32 value o snapshot_created inserted_at jitter tags etag
        last_modified =
      do
        weight ← size o
        logical_expiration ← logical_expiration_with_jitter o inserted_at jitter
        let physical_expiration =
            max_ℤ (saturating_add inserted_at (physical_ttl o)) logical_expiration
        ok (record {
          value = value;
          meta = record {
            created = snapshot_created;
            inserted_at = inserted_at;
            logical_expiration = logical_expiration;
            physical_expiration = physical_expiration;
            backend_ttl = saturating_duration_since physical_expiration inserted_at;
            origin =
                fresh_origin (eager_refresh_at_expiration mul_f32 o inserted_at logical_expiration);
            etag = etag;
            last_modified = last_modified;
            tags = tags;
            retention = fresh_retention o weight etag last_modified;
          };
          eligibility = local_entry;
        })

  -- `try_fresh_at`: the jitter is drawn from the random source.
  pub try_fresh_at :
      (Duration → F32 → Duration)
      → (Duration → Duration)
      → V
      → EntryOptions
      → Timestamp
      → Timestamp
      → List Tag
      → Option Text
      → Option Timestamp
      → Result (Entry V) ConfigError
  try_fresh_at mul_f32 random value o snapshot_created inserted_at tags etag last_modified = do
    jitter ← jitter_sample (random_sample random o.jitter_max) o.jitter_max
    prepare_fresh_with_jitter mul_f32 value o snapshot_created inserted_at jitter tags etag
        last_modified

  -- `try_rehydrate_with_retention`
  unfoldable pub try_rehydrate_with_retention :
      V
      → Timestamp
      → Timestamp
      → Timestamp
      → Bool
      → Option Text
      → Option Timestamp
      → List Tag
      → RetentionMetadata
      → Timestamp
      → Result (Entry V) ConfigError
  try_rehydrate_with_retention value created logical physical is_from_fail_safe etag last_modified
        tags retention now =
      if ltb_ℤ physical logical
      then err invalid_entry_deadlines
      else ok (record {
        value = value;
        meta = record {
          created = created;
          inserted_at = now;
          logical_expiration = logical;
          physical_expiration = physical;
          backend_ttl = saturating_duration_since physical now;
          origin = if is_from_fail_safe then fail_safe else fresh_origin none;
          etag = etag;
          last_modified = last_modified;
          tags = tags;
          retention = retention;
        };
        eligibility = local_entry;
      })

  pub try_rehydrate :
      V
      → Timestamp
      → Timestamp
      → Timestamp
      → Bool
      → Option Text
      → Option Timestamp
      → List Tag
      → Timestamp
      → Result (Entry V) ConfigError
  try_rehydrate value created logical physical is_from_fail_safe etag last_modified tags now =
      try_rehydrate_with_retention value created logical physical is_from_fail_safe etag
        last_modified tags unspecified now

  unfoldable pub try_from_fail_safe_default :
      V → EntryOptions → Timestamp → Result (Entry V) ConfigError
  try_from_fail_safe_default value o now = do
    weight ← size o
    let physical_expiration = saturating_add now (physical_ttl o)
    ok (record {
      value = value;
      meta = record {
        created = now;
        inserted_at = now;
        logical_expiration =
            min_ℤ (saturating_add now o.fail_safe_throttle_duration) physical_expiration;
        physical_expiration = physical_expiration;
        backend_ttl = physical_ttl o;
        origin = fail_safe;
        etag = none;
        last_modified = none;
        tags = [];
        retention = specified weight o.priority;
      };
      eligibility = local_entry;
    })
