-- ===== src/Entry/Fresh/Laws.antt =====
-- src/entry.rs: every constructor builds a well-formed entry, and the prepared plan builds the same
-- entry as the general path.
use amalgam.Prelude.{◌≡◌, Bool, inl, inr, Option, none, some, List, arith}
use amalgam.Prelude.Word.{IsI64}
use amalgam.Prelude.Text.{Text}
use amalgam.Prelude.Result.{ok, Result-cases}
use amalgam.Time.Duration.{Duration}
use amalgam.Time.Timestamp.{Timestamp, saturating_add, lifetime_span}
use amalgam.Time.Timestamp.Laws.{saturating_add_bounds, after-lifetime_span}
use amalgam.Options.Values.{EntryWeight, F32, JitterSample, zero_jitter}
use amalgam.Options.Entry.{EntryOptions, size}
use amalgam.Options.Resolved.{resolved_memory_duration, physical_ttl}
use amalgam.Options.Resolved.Laws.{logical_expiration_cases, no_jitter, no_eager_refresh}
use amalgam.Tags.Tag.{Tag}
use amalgam.Entry.Envelope.{Entry, RetentionMetadata}
use amalgam.Entry.Envelope.Laws.{IsWellFormed}
use amalgam.Entry.Fresh.{
  FreshPlan, plan_for, plan_retention, prepare, fresh_retention, prepare_fresh_with_jitter,
  try_rehydrate_with_retention, try_from_fail_safe_default,
}

same_retention :
    (o : EntryOptions) (w : Option EntryWeight)
    → o.eager_refresh_threshold ≡ none
    → fresh_retention o w none none ≡ plan_retention o w
unfolding fresh_retention plan_retention
same_retention o w h = ground arith

plan_for-some :
    (o : EntryOptions) (plan : FreshPlan)
    → plan_for o ≡ ok (some plan)
    → (w : Option EntryWeight) × (size o ≡ ok w)
      × (o.eager_refresh_threshold ≡ none)
      × (record {
        logical = lifetime_span (resolved_memory_duration o);
        physical = lifetime_span (physical_ttl o);
        retention = plan_retention o w;
      }
          ≡ plan)
unfolding plan_for
plan_for-some o plan h = elim (Result-cases (size o)) [
  | inl (w, p) ↦ (w, p, ground arith, ground arith)
  | inr (e, p) ↦ absurd (ground arith)
]

-- The ways in which an entry comes into being, at representable instants.
pub data Built {ℓ} {V : Type ℓ} (e : Entry V) : Type ℓ where
  prepares :
      (mul_f32 : Duration → F32 → Duration) (value : V) (o : EntryOptions) (created now : Timestamp)
      (jitter : JitterSample) (tags : List Tag) (etag : Option Text) (modified : Option Timestamp)
      → IsI64 now
      → prepare_fresh_with_jitter mul_f32 value o created now jitter tags etag modified ≡ ok e
      → Built e
  defaults :
      (value : V) (o : EntryOptions) (now : Timestamp)
      → IsI64 now
      → try_from_fail_safe_default value o now ≡ ok e
      → Built e
  rehydrates :
      (value : V) (created now logical physical : Timestamp) (tags : List Tag) (etag : Option Text)
      (modified : Option Timestamp) (from_fail_safe : Bool) (retention : RetentionMetadata)
      → IsI64 logical
      → IsI64 physical
      → try_rehydrate_with_retention value created logical physical from_fail_safe etag modified
          tags retention now
        ≡ ok e
      → Built e

module _ {ℓ} {V : Type ℓ} where
  fresh-IsWellFormed :
      (mul_f32 : Duration → F32 → Duration) (value : V) (o : EntryOptions) (created now : Timestamp)
      (jitter : JitterSample) (tags : List Tag) (etag : Option Text) (modified : Option Timestamp)
      (e : Entry V)
      → IsI64 now
      → prepare_fresh_with_jitter mul_f32 value o created now jitter tags etag modified ≡ ok e
      → IsWellFormed e.meta
  unfolding prepare_fresh_with_jitter
  fresh-IsWellFormed mul_f32 value o created now jitter tags etag modified e i h =
      ground (
        arith,
        logical_expiration_cases o now jitter i,
        saturating_add_bounds now (physical_ttl o) i,
      )

  default-IsWellFormed :
      (value : V) (o : EntryOptions) (now : Timestamp) (e : Entry V)
      → IsI64 now
      → try_from_fail_safe_default value o now ≡ ok e
      → IsWellFormed e.meta
  unfolding try_from_fail_safe_default
  default-IsWellFormed value o now e i h = ground (
    arith,
    saturating_add_bounds now (physical_ttl o) i,
    saturating_add_bounds now o.fail_safe_throttle_duration i,
  )

  rehydrated-IsWellFormed :
      (value : V) (created now logical physical : Timestamp) (tags : List Tag) (etag : Option Text)
      (modified : Option Timestamp) (from_fail_safe : Bool) (retention : RetentionMetadata)
      (e : Entry V)
      → IsI64 logical
      → IsI64 physical
      → try_rehydrate_with_retention value created logical physical from_fail_safe etag modified
          tags retention now
        ≡ ok e
      → IsWellFormed e.meta
  unfolding try_rehydrate_with_retention
  rehydrated-IsWellFormed value created now logical physical tags etag modified failed retention e j
        k h =
      ground arith

  -- Every entry that is prepared from a fresh value, rehydrated from wire data or made from a
  -- fail-safe default, at representable instants, is well-formed.
  pub Built-IsWellFormed : {e : Entry V} → Built e → IsWellFormed e.meta
  Built-IsWellFormed {e} (prepares mul_f32 value o created now jitter tags etag modified i h) =
      fresh-IsWellFormed mul_f32 value o created now jitter tags etag modified e i h
  Built-IsWellFormed {e} (defaults value o now i h) = default-IsWellFormed value o now e i h
  Built-IsWellFormed {e}
        (rehydrates value created now logical physical tags etag modified failed retention i j h) =
      rehydrated-IsWellFormed value created now logical physical tags etag modified failed retention
        e i j h

  prepared_same :
      (mul_f32 : Duration → F32 → Duration) (value : V) (o : EntryOptions) (now : Timestamp)
      (tags : List Tag) (w : Option EntryWeight)
      → IsI64 now
      → o.eager_refresh_threshold ≡ none
      → size o ≡ ok w
      → prepare_fresh_with_jitter mul_f32 value o now now zero_jitter tags none none
        ≡ ok (
            prepare
              (record {
                logical = lifetime_span (resolved_memory_duration o);
                physical = lifetime_span (physical_ttl o);
                retention = plan_retention o w;
              })
              value
              now
              tags)
  unfolding prepare_fresh_with_jitter prepare
  prepared_same mul_f32 value o now tags w i none_set sized =
      let base = saturating_add now (resolved_memory_duration o) in
      rw (
        sized,
        no_jitter o now i,
        after-lifetime_span (resolved_memory_duration o) now,
        after-lifetime_span (physical_ttl o) now,
        no_eager_refresh mul_f32 o now base none_set,
        same_retention o w none_set,
      )

  -- Where the options have a prepared plan, preparing a value with it at a representable instant
  -- gives the very entry that the general path builds without jitter.
  pub prepare_same :
      (mul_f32 : Duration → F32 → Duration) (value : V) (o : EntryOptions) (now : Timestamp)
      (tags : List Tag) (plan : FreshPlan)
      → IsI64 now
      → plan_for o ≡ ok (some plan)
      → prepare_fresh_with_jitter mul_f32 value o now now zero_jitter tags none none
        ≡ ok (prepare plan value now tags)
  prepare_same mul_f32 value o now tags plan i h =
      let (w, sized, calm, same) = plan_for-some o plan h in
      rw (← same) (prepared_same mul_f32 value o now tags w i calm sized)
