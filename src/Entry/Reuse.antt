-- ===== src/Entry/Reuse.antt =====
-- src/entry.rs: serving an existing entry again: throttled by fail-safe, expired, reinserted, or
-- brought into memory from the distributed cache. `mul_f32` stands for `Duration::mul_f32`.
pub mod Lifetimes
pub mod Behaviour
use mathlib.Core.Option
use amalgam.Prelude.{ℕ, Bool, true, false, not, Option, none, some, ◌||◌, ◌&&◌, if◌then◌else◌}
use amalgam.Prelude.Int.{max_ℤ, min_ℤ, ltb_ℤ, eqb_ℤ}
use amalgam.Prelude.Result.{Result, ok, err, ◌>>=◌, ◌>>◌, map_ok}
use amalgam.Time.Duration.{Duration}
use amalgam.Time.Timestamp.{Timestamp, saturating_add, saturating_duration_since}
use amalgam.Error.{ConfigError}
use amalgam.Options.Values.{EntryWeight, Priority, F32, EagerThreshold}
use amalgam.Options.Entry.{EntryOptions, size}
use amalgam.Options.Budgets.{validate}
use amalgam.Options.Resolved.{resolved_memory_duration, physical_ttl}
use amalgam.Entry.Envelope.{
  Entry, Metadata, RetentionMetadata, unspecified, specified, EntryOrigin, fresh_origin, fail_safe,
  Eligibility, hydrated, ContinuityStamp, Epochs, is_read_eligible, is_physically_expired,
  backend_ttl_at,
}

-- The origin without its eager refresh.
abbrev pub spend : EntryOrigin → EntryOrigin
spend (fresh_origin _) = fresh_origin none
spend fail_safe = fail_safe

abbrev hydrated_retention : RetentionMetadata → Option EntryWeight → Priority → RetentionMetadata
hydrated_retention (specified size priority) requested _ =
    specified (elim size [ some w ↦ some w | none ↦ requested ]) priority
hydrated_retention unspecified requested priority = specified requested priority

hydrated_refresh :
    (Duration → F32 → Duration) → Option EagerThreshold → Timestamp → Timestamp → Option Timestamp
hydrated_refresh mul_f32 none now logical = none
hydrated_refresh mul_f32 (some threshold) now logical =
    if ltb_ℤ now logical
    then some
        (saturating_add now (mul_f32 (saturating_duration_since logical now) threshold.fraction))
    else none

abbrev hydrated_origin : EntryOrigin → Option Timestamp → EntryOrigin
hydrated_origin fail_safe refresh = fail_safe
hydrated_origin (fresh_origin _) refresh = fresh_origin refresh

module _ {ℓ} {V : Type ℓ} where
  -- The representation that `try_throttled` builds.
  throttle : Entry V → EntryOptions → Timestamp → Entry V
  throttle source o now = record source {
    meta = record (source.meta) {
      inserted_at = now;
      logical_expiration =
          min_ℤ (saturating_add now o.fail_safe_throttle_duration) source.meta.physical_expiration;
      backend_ttl = saturating_duration_since source.meta.physical_expiration now;
      origin = fail_safe;
    };
  }

  pub try_throttled :
      Epochs → Entry V → EntryOptions → Timestamp → Result (Option (Entry V)) ConfigError
  unfolding throttle
  try_throttled epochs source o now = validate o >>= λ _.
      (if not (is_read_eligible source epochs) || is_physically_expired source now
        then ok none
        else ok (some (throttle source o now)))

  module _ (e : Entry V) where
    pub at_insertion : Timestamp → Entry V
    unfolding backend_ttl_at
    at_insertion inserted_at = if eqb_ℤ inserted_at e.meta.inserted_at then e else record e {
      meta = record (e.meta) {
        inserted_at = inserted_at;
        backend_ttl = backend_ttl_at e inserted_at;
      };
    }

    pub with_hydrated_value : V → ContinuityStamp → Entry V
    with_hydrated_value value stamp = record e { value = value; eligibility = hydrated stamp }

    pub without_eager_refresh : Entry V
    without_eager_refresh = record e { meta = record (e.meta) { origin = spend e.meta.origin } }

    pub with_value : V → Entry V
    with_value value = record e { value = value }

    pub with_logical_expiration_at : Timestamp → Timestamp → Entry V
    with_logical_expiration_at at inserted_at = record e {
      meta = record (e.meta) {
        logical_expiration = min_ℤ at e.meta.physical_expiration;
        inserted_at = inserted_at;
        origin = spend e.meta.origin;
        backend_ttl = saturating_duration_since e.meta.physical_expiration inserted_at;
      };
    }

    pub with_logical_expiration : Timestamp → Entry V
    unfolding with_logical_expiration_at
    with_logical_expiration at = with_logical_expiration_at at at

    pub with_retention : Option EntryWeight → Priority → Entry V
    with_retention size priority = record e {
      meta = record (e.meta) { retention = specified size priority };
    }

    hydrated_meta :
        (Duration → F32 → Duration) → EntryOptions → Option EntryWeight → Timestamp → Metadata
    unfolding hydrated_refresh
    hydrated_meta mul_f32 o requested now =
        let logical =
          min_ℤ e.meta.logical_expiration (saturating_add now (resolved_memory_duration o)) in
        let physical =
          max_ℤ (min_ℤ e.meta.physical_expiration (saturating_add now (physical_ttl o))) logical in
        record (e.meta) {
          inserted_at = now;
          logical_expiration = logical;
          physical_expiration = physical;
          backend_ttl = saturating_duration_since physical now;
          retention = hydrated_retention e.meta.retention requested o.priority;
          origin =
              hydrated_origin e.meta.origin
                (hydrated_refresh mul_f32 o.eager_refresh_threshold now logical);
        }

    pub prepare_memory_hydration :
        (Duration → F32 → Duration)
        → Epochs
        → EntryOptions
        → Timestamp
        → Result (Option Metadata) ConfigError
    unfolding hydrated_meta
    prepare_memory_hydration mul_f32 epochs o now = do
      requested ← size o
      ok (
          if not (is_read_eligible e epochs) || is_physically_expired e now
          then none
          else some (hydrated_meta mul_f32 o requested now))

    pub for_memory_hydration :
        (Duration → F32 → Duration)
        → Epochs
        → EntryOptions
        → Timestamp
        → Result (Option (Entry V)) ConfigError
    for_memory_hydration mul_f32 epochs o now =
        map_ok (Option.map (λ m. record e { meta = m }))
          (prepare_memory_hydration mul_f32 epochs o now)
