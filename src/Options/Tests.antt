-- ===== src/Options/Tests.antt =====
-- src/options.rs: options with fail-safe and timeouts, built and resolved.
use amalgam.Prelude.{◌≡◌, refl, Bool, true, false, none, some, List, [], ◌∷◌, ltb}
use amalgam.Prelude.Int.{pos, negsuc}
use amalgam.Prelude.Result.{ok, err}
use amalgam.Error.{negative_entry_weight}
use amalgam.Time.Duration.{Duration}
use amalgam.Time.Timestamp.{Timestamp, saturating_add}
use amalgam.Time.Timeout.{Timeout}
use amalgam.Options.Values.{
  JitterSample, standard, configured, jitter_sample, random_sample, sample, select, weight_try_from,
  eager_threshold, f32_one, eviction_rank, high,
}
use amalgam.Options.Entry.{EntryOptions, default_options, options_for, size}
use amalgam.Options.Budgets.{validate, validate_with_cloner}
use amalgam.Options.Builders.{
  tag_defaults, with_distributed_duration, with_fail_safe,
  with_allow_background_backplane_operations, with_rethrow_serialization_exceptions,
  with_skip_distributed_locker, with_priority, with_size,
}
use amalgam.Options.Builders.Calls.{Call, build}
use amalgam.Options.Builders.Deadlines.{IsJudged, build_budgets}
use amalgam.Options.Resolved.{logical_expiration, logical_expiration_with_jitter}

-- A negative weight is refused; one is not below one; no source is the standard plan.
values_run :
    (weight_try_from (negsuc 2) ≡ err (negative_entry_weight (negsuc 2)))
    × (eager_threshold f32_one ≡ none)
    × (eviction_rank high ≡ 2)
    × (select none ≡ standard)
unfolding weight_try_from eager_threshold eviction_rank select
values_run = (refl, refl, refl, refl)

abbrev thirty : JitterSample
thirty = record { duration = 30 }

sampled : sample (λ m. m) (configured (λ m. 30)) 40 ≡ ok thirty
unfolding sample jitter_sample
sampled = refl

abbrev far : Duration → Bool
far d = ltb 1_000 d

abbrev calls : List ((Duration → Bool) × Call)
calls =
    (far, Call.fail_safe true (some 90) none)
    ∷ (far, Call.legacy_size (negsuc 0))
    ∷ (far, Call.factory_timeouts (Timeout.after 20) (Timeout.after 5_000) true)
    ∷ ((λ d. false), Call.priority high)
    ∷ []

abbrev safe : EntryOptions
safe = record default_options {
  duration = 40;
  is_fail_safe_enabled = true;
  fail_safe_max_duration = 90;
  factory_soft_timeout = Timeout.after 20;
  factory_hard_timeout = Timeout.after 50;
  jitter_max = 100;
}

build_budgets_example : IsJudged far (build (options_for 40) calls)
build_budgets_example = build_budgets 40 calls

-- The sum of the lifetime and a jitter of 50.
abbrev jittered : Timestamp
jittered = saturating_add (saturating_add (pos 3) 40) 50

jittered-ok : logical_expiration_with_jitter safe (pos 3) (record { duration = 50 }) ≡ ok jittered
unfolding logical_expiration_with_jitter jitter_sample
jittered-ok = refl

-- A configured source is not asked by `logical_expiration`, which draws from the random one.
random_jitter : logical_expiration safe (λ m. 50) (pos 3) ≡ jittered
unfolding logical_expiration random_sample
random_jitter = refl

-- The defaults of tag entries never expire by weight, and need no cloner.
tag_defaults_run :
    (tag_defaults.is_fail_safe_enabled ≡ true) × (validate_with_cloner tag_defaults false ≡ ok tt)
unfolding tag_defaults validate_with_cloner with_distributed_duration with_fail_safe
    with_allow_background_backplane_operations with_rethrow_serialization_exceptions
    with_skip_distributed_locker with_priority with_size validate size weight_try_from
tag_defaults_run = (refl, refl)
