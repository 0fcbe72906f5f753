-- ===== src/Options/Resolved.antt =====
-- src/options.rs: durations, timeouts and expirations resolved from the options. `mul_f32` stands
-- for `Duration::mul_f32`, which has no law here.
pub mod Laws
use Prim.Native.Nat.{max}
use amalgam.Prelude.{Bool, true, false, not, Option, none, some, ◌&&◌, if◌then◌else◌}
use mathlib.Core.Option
use amalgam.Prelude.Int.{ℤ, leb_ℤ}
use amalgam.Prelude.Result.{Result, ok, err, ◌>>=◌}
use amalgam.Time.Duration.{Duration}
use amalgam.Time.Timestamp.{Timestamp, saturating_add, saturating_duration_since}
use amalgam.Time.Timeout
use amalgam.Time.Timeout.{Timeout, infinite}
use amalgam.Error.{ConfigError}
use amalgam.Options.Values.{F32, JitterSample, jitter_sample, random_sample}
use amalgam.Options.Entry.{EntryOptions}

module _ (o : EntryOptions) where
  abbrev pub resolved_memory_duration : Duration
  resolved_memory_duration = Option.get_or o.memory_duration o.duration

  abbrev pub resolved_distributed_duration : Duration
  resolved_distributed_duration = Option.get_or o.distributed_duration o.duration

  abbrev pub resolved_distributed_fail_safe_max_duration : Duration
  resolved_distributed_fail_safe_max_duration =
      Option.get_or o.distributed_fail_safe_max_duration o.fail_safe_max_duration

  unfoldable pub physical_ttl : Duration
  physical_ttl =
      if o.is_fail_safe_enabled
      then max resolved_memory_duration o.fail_safe_max_duration
      else resolved_memory_duration

  pub distributed_physical_ttl : Duration
  distributed_physical_ttl =
      if o.is_fail_safe_enabled
      then max resolved_distributed_duration resolved_distributed_fail_safe_max_duration
      else resolved_distributed_duration

  soft_or_infinite : Bool → Timeout → Timeout
  soft_or_infinite has_fallback soft =
      if o.is_fail_safe_enabled && (has_fallback && not (Timeout.is_infinite soft))
      then soft
      else infinite

  pub appropriate_factory_timeout : Bool → Timeout
  unfolding soft_or_infinite
  appropriate_factory_timeout has_fallback =
      Timeout.min (soft_or_infinite has_fallback o.factory_soft_timeout) o.factory_hard_timeout

  pub appropriate_distributed_timeout : Bool → Timeout
  unfolding soft_or_infinite
  appropriate_distributed_timeout has_fallback =
      Timeout.min (soft_or_infinite has_fallback o.distributed_soft_timeout)
        o.distributed_hard_timeout

  -- With the jitter drawn from the random source.
  unfoldable pub logical_expiration : (Duration → Duration) → Timestamp → Timestamp
  logical_expiration random created =
      saturating_add (saturating_add created resolved_memory_duration)
        (random_sample random o.jitter_max)

  unfoldable pub logical_expiration_with_jitter :
      Timestamp → JitterSample → Result Timestamp ConfigError
  logical_expiration_with_jitter inserted_at jitter = do
    sample ← jitter_sample jitter.duration o.jitter_max
    ok (saturating_add (saturating_add inserted_at resolved_memory_duration) sample.duration)

module _ (mul_f32 : Duration → F32 → Duration) (o : EntryOptions) where
  pub eager_refresh_at_expiration : Timestamp → Timestamp → Option Timestamp
  eager_refresh_at_expiration inserted_at expiration = elim o.eager_refresh_threshold [
    | none ↦ none
    | some threshold ↦
        if leb_ℤ expiration inserted_at
        then none
        else some (
            saturating_add inserted_at
              (mul_f32 (saturating_duration_since expiration inserted_at) threshold.fraction))
  ]

  pub eager_refresh_at : Timestamp → Option Timestamp
  eager_refresh_at created = elim o.eager_refresh_threshold [
    | none ↦ none
    | some threshold ↦
        some (saturating_add created (mul_f32 (resolved_memory_duration o) threshold.fraction))
  ]
