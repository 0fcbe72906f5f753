-- ===== src/Options/Values.antt =====
-- src/options.rs: the supporting value types. An `f32` is its 32-bit IEEE pattern.
pub mod Laws
use amalgam.Prelude.{ℕ, ◌^◌, Bool, Option, none, some, ◌&&◌, ltb, if◌then◌else◌}
use amalgam.Prelude.Int.{ℤ, pos, negsuc}
use amalgam.Prelude.Result.{Result, ok, err}
use amalgam.Time.Duration.{Duration, is_zero}
use amalgam.Error.{ConfigError, invalid_jitter_sample, negative_entry_weight}

pub record JitterSample : Type 0 where
  pub duration : Duration

-- `JitterSample::new`: a sample above the configured maximum is refused.
unfoldable pub jitter_sample : Duration → Duration → Result JitterSample ConfigError
jitter_sample sample maximum =
    if ltb maximum sample
    then err (invalid_jitter_sample sample maximum)
    else ok (record { duration = sample })

abbrev pub zero_jitter : JitterSample
zero_jitter = record { duration = 0 }

-- `JitterPlan`, over the random source `random` (fastrand) and a configured source.
pub data JitterPlan : Type 0 where
  standard : JitterPlan
  configured : (Duration → Duration) → JitterPlan

unfoldable pub select : Option (Duration → Duration) → JitterPlan
select none = standard
select (some source) = configured source

-- `RandomJitterSource::sample`
unfoldable pub random_sample : (Duration → Duration) → Duration → Duration
random_sample random maximum = if is_zero maximum then 0 else random maximum

unfoldable pub sample :
    (Duration → Duration) → JitterPlan → Duration → Result JitterSample ConfigError
sample random standard maximum =
    if is_zero maximum then ok zero_jitter else jitter_sample (random_sample random maximum) maximum
sample random (configured source) maximum = jitter_sample (source maximum) maximum

pub data Priority : Type 0 where
  low normal high never_remove : Priority

unfoldable pub eviction_rank : Priority → ℕ
eviction_rank low = 0
eviction_rank normal = 1
eviction_rank high = 2
eviction_rank never_remove = 3

pub record EntryWeight : Type 0 where
  pub units : ℕ

-- `TryFrom<i64>`
unfoldable pub weight_try_from : ℤ → Result EntryWeight ConfigError
weight_try_from (pos n) = ok (record { units = n })
weight_try_from (negsuc n) = err (negative_entry_weight (negsuc n))

pub data EntrySize : Type 0 where
  unspecified : EntrySize
  weight : EntryWeight → EntrySize
  rejected : ℤ → EntrySize

pub data RemoveByTagBehavior : Type 0 where
  expire remove : RemoveByTagBehavior

pub data KeyModifierMode : Type 0 where
  prefix suffix unmodified : KeyModifierMode

abbrev pub F32 : Type 0
F32 = ℕ

-- The pattern of 1.0. The patterns of the positive floats below it are those between 0 and it.
abbrev pub f32_one : F32
f32_one = 0x3f80_0000

pub record EagerThreshold : Type 0 where
  pub fraction : F32

unfoldable pub eager_threshold : F32 → Option EagerThreshold
eager_threshold fraction =
    if ltb 0 fraction && ltb fraction f32_one then some (record { fraction = fraction }) else none

pub data TimerRequirement : Type 0 where
  inline runtime : TimerRequirement

pub data BudgetState : Type 0 where
  valid : TimerRequirement → BudgetState
  out_of_range : BudgetState
