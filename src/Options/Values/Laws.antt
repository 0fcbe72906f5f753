-- ===== src/Options/Values/Laws.antt =====
-- src/options.rs: validated option values.
use amalgam.Prelude.{◌≤◌, ◌<◌, ◌≡◌, ◌⊎◌, arith}
use amalgam.Prelude.Result.{ok, err}
use amalgam.Time.Duration.{Duration}
use amalgam.Error.{invalid_jitter_sample}
use amalgam.Options.Values.{
  JitterSample, JitterPlan, standard, configured, jitter_sample, sample, random_sample,
}

pub jitter_sample_cases :
    (s m : Duration)
    → ((s ≤ m) × (jitter_sample s m ≡ ok (record { duration = s })))
      ⊎ ((m < s) × (jitter_sample s m ≡ err (invalid_jitter_sample s m)))
unfolding jitter_sample
jitter_sample_cases s m = ground arith

-- No source of jitter, random or configured, delivers an accepted sample above the maximum.
pub sample_bounded :
    (random : Duration → Duration) (plan : JitterPlan) (m : Duration) {j : JitterSample}
    → sample random plan m ≡ ok j
    → j.duration ≤ m
unfolding sample
sample_bounded random standard m h = ground (arith, jitter_sample_cases (random_sample random m) m)
sample_bounded random (configured source) m h = ground (arith, jitter_sample_cases (source m) m)
