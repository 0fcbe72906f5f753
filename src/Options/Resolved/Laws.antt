-- ===== src/Options/Resolved/Laws.antt =====
-- src/options.rs: the lifetimes and timeouts that the options resolve to.
use amalgam.Prelude.{◌≤◌, ◌≡◌, Bool, true, false, ◌&&◌, ◌⊎◌, inl, inr, none, arith, if◌then◌else◌}
use amalgam.Prelude.Int.{◌≤ℤ◌}
use amalgam.Prelude.Word.{IsI64}
use amalgam.Prelude.Result.{ok, err, Result-cases}
use amalgam.Time.Timestamp.{Timestamp, saturating_add}
use amalgam.Time.Timestamp.Laws.{saturating_add_bounds, saturating_add_mono, saturating_add-zero}
use amalgam.Time.Duration.{Duration}
use amalgam.Time.Timeout.{Timeout, infinite, after}
use amalgam.Time.Timeout
use amalgam.Error.{ConfigError}
use amalgam.Options.Values.{JitterSample, F32, zero_jitter}
use amalgam.Options.Values.Laws.{jitter_sample_cases}
use amalgam.Options.Entry.{EntryOptions}
use amalgam.Options.Resolved.{
  resolved_memory_duration, resolved_distributed_duration, physical_ttl, distributed_physical_ttl,
  soft_or_infinite, appropriate_factory_timeout, appropriate_distributed_timeout,
  logical_expiration_with_jitter, eager_refresh_at_expiration,
}

-- Physical lifetimes cover the logical ones; with fail-safe the local one covers its window as
-- well, and without it ends with the logical lifetime.
pub physical_ttl_covers :
    (o : EntryOptions)
    → (resolved_memory_duration o ≤ physical_ttl o)
      × (resolved_distributed_duration o ≤ distributed_physical_ttl o)
      × (((o.is_fail_safe_enabled ≡ true) × (o.fail_safe_max_duration ≤ physical_ttl o))
          ⊎ ((o.is_fail_safe_enabled ≡ false) × (physical_ttl o ≡ resolved_memory_duration o)))
unfolding physical_ttl distributed_physical_ttl
physical_ttl_covers o = (ground arith, ground arith, ground arith)

min_soft :
    (o : EntryOptions) (fallback : Bool) (soft hard : Timeout)
    → Timeout.min (soft_or_infinite o fallback soft) hard
      ≡ (if o.is_fail_safe_enabled && fallback then Timeout.min soft hard else hard)
unfolding soft_or_infinite Timeout.min
min_soft o fallback infinite hard = ground arith
min_soft o fallback (after d) hard = ground arith

-- The factory and the distributed cache are given the hard timeout, and the shorter of the soft
-- and the hard one exactly if fail-safe is enabled and a fallback value is at hand.
pub appropriate_timeouts :
    (o : EntryOptions) (fallback : Bool)
    → (appropriate_factory_timeout o fallback ≡ (
        if o.is_fail_safe_enabled && fallback
        then Timeout.min o.factory_soft_timeout o.factory_hard_timeout
        else o.factory_hard_timeout))
      × (appropriate_distributed_timeout o fallback ≡ (
          if o.is_fail_safe_enabled && fallback
          then Timeout.min o.distributed_soft_timeout o.distributed_hard_timeout
          else o.distributed_hard_timeout))
unfolding appropriate_factory_timeout appropriate_distributed_timeout
appropriate_timeouts o fallback = (
  min_soft o fallback o.factory_soft_timeout o.factory_hard_timeout,
  min_soft o fallback o.distributed_soft_timeout o.distributed_hard_timeout,
)

-- At a representable instant, an accepted jitter only postpones the logical expiration, by no more
-- than the configured maximum, and the expiration is representable.
pub logical_expiration_bounds :
    (o : EntryOptions) (at : Timestamp) (jitter : JitterSample) {e : Timestamp}
    → IsI64 at
    → logical_expiration_with_jitter o at jitter ≡ ok e
    → (saturating_add at (resolved_memory_duration o) ≤ℤ e)
      × (e ≤ℤ saturating_add (saturating_add at (resolved_memory_duration o)) o.jitter_max)
      × IsI64 e
unfolding logical_expiration_with_jitter
logical_expiration_bounds o at jitter i h =
    let base = saturating_add at (resolved_memory_duration o) in
    let fits = (saturating_add_bounds at (resolved_memory_duration o) i).1 in
    ground (
      arith,
      jitter_sample_cases jitter.duration o.jitter_max,
      saturating_add_bounds base jitter.duration fits,
      saturating_add_mono base base jitter.duration o.jitter_max fits fits,
    )

-- Without jitter the expiration is the exact end of the memory duration.
pub no_jitter :
    (o : EntryOptions) (at : Timestamp)
    → IsI64 at
    → logical_expiration_with_jitter o at zero_jitter
      ≡ ok (saturating_add at (resolved_memory_duration o))
unfolding logical_expiration_with_jitter
no_jitter o at i = ground (
  arith,
  jitter_sample_cases 0 o.jitter_max,
  saturating_add-zero (saturating_add at (resolved_memory_duration o))
      (saturating_add_bounds at (resolved_memory_duration o) i).1,
)

pub no_eager_refresh :
    (mul_f32 : Duration → F32 → Duration) (o : EntryOptions) (at expiration : Timestamp)
    → o.eager_refresh_threshold ≡ none
    → eager_refresh_at_expiration mul_f32 o at expiration ≡ none
unfolding eager_refresh_at_expiration
no_eager_refresh mul_f32 o at expiration e = ground arith

pub logical_expiration_cases :
    (o : EntryOptions) (at : Timestamp) (jitter : JitterSample)
    → IsI64 at
    → ((c : ConfigError) × (logical_expiration_with_jitter o at jitter ≡ err c))
      ⊎ ((e : Timestamp) × (logical_expiration_with_jitter o at jitter ≡ ok e) × IsI64 e)
logical_expiration_cases o at jitter i =
    elim (Result-cases (logical_expiration_with_jitter o at jitter)) [
      | inr (c, p) ↦ inl (c, p)
      | inl (e, p) ↦ inr (e, p, (logical_expiration_bounds o at jitter i p).2)
    ]
