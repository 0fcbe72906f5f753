-- ===== src/Entry/Tests.antt =====
-- src/entry.rs and src/entry/plain.rs: an entry with fail-safe, built and served again.
use amalgam.Prelude.{ℕ, ◌≡◌, refl, true, none, some, [], arith}
use amalgam.Prelude.Int.{pos, min_ℤ}
use amalgam.Prelude.Result.{ok}
use amalgam.Time.Duration.{Duration, duration_ticks_wide}
use amalgam.Time.Timestamp.{saturating_add, lifetime_span}
use amalgam.Options.Values.{F32, zero_jitter, normal}
use amalgam.Options.Entry.{EntryOptions, default_options, options_for, size}
use amalgam.Options.Resolved.{physical_ttl}
use amalgam.Entry.Envelope.{
  Entry, Epochs, hydrated, fresh_origin, unspecified, fail_safe, specified, local_entry,
}
use amalgam.Entry.Envelope.Laws.{IsWellFormed}
use amalgam.Entry.Fresh.{
  FreshPlan, plan_for, plan_retention, prepare_fresh_with_jitter, try_from_fail_safe_default,
}
use amalgam.Entry.Fresh.Laws.{defaults, Built-IsWellFormed}
use amalgam.Entry.Plain.{plain, default_plan, choose_plan}
use amalgam.Entry.Plain.Laws.{built_with, default_plan_same}
use amalgam.Entry.Reuse.{with_logical_expiration_at, without_eager_refresh}
use amalgam.Entry.Reuse.Lifetimes.{Keeps, here, next, expires, spends, Reuses-Keeps}

-- An entry of value 9, fresh for a tick count of 50 and alive for 90.
abbrev sample_entry : Entry ℕ
sample_entry = record {
  value = 9;
  meta = record {
    created = pos 10;
    inserted_at = pos 10;
    logical_expiration = pos 60;
    physical_expiration = pos 100;
    backend_ttl = 9_000;
    origin = fresh_origin (some (pos 40));
    etag = none;
    last_modified = none;
    tags = [];
    retention = unspecified;
  };
  eligibility = hydrated (record { epoch = 1; captured = 2 });
}

sample-IsWellFormed : IsWellFormed sample_entry.meta
sample-IsWellFormed = record {
  ordered = omega arith;
  logical_fits = (omega arith, omega arith);
  physical_fits = (omega arith, omega arith);
}

abbrev nine : ℕ
nine = 9

abbrev epochs : Epochs
epochs n = 2

abbrev same_mul : Duration → F32 → Duration
same_mul d f = d

abbrev safe : EntryOptions
safe = record default_options {
  duration = 4_000;
  is_fail_safe_enabled = true;
  fail_safe_max_duration = 9_000;
  fail_safe_throttle_duration = 500;
}

-- The entry is expired, and then stripped of its eager refresh.
abbrev served : Entry ℕ
served = without_eager_refresh (with_logical_expiration_at sample_entry (pos 20) (pos 20))

Reuses-Keeps_example : Keeps sample_entry served
Reuses-Keeps_example =
    Reuses-Keeps {s = sample_entry} {t = served}
      (next epochs
        (next epochs here
          (expires (pos 20) (pos 20) (omega arith, omega arith) (omega arith, omega arith) refl))
        (spends refl))
      sample-IsWellFormed

abbrev fallback : Entry ℕ
fallback = record {
  value = 9;
  meta = record {
    created = pos 10;
    inserted_at = pos 10;
    logical_expiration = min_ℤ (saturating_add (pos 10) 500) (saturating_add (pos 10) 9_000);
    physical_expiration = saturating_add (pos 10) 9_000;
    backend_ttl = 9_000;
    origin = fail_safe;
    etag = none;
    last_modified = none;
    tags = [];
    retention = specified none normal;
  };
  eligibility = local_entry;
}

fallback-ok : try_from_fail_safe_default 9 safe (pos 10) ≡ ok fallback
unfolding try_from_fail_safe_default size physical_ttl
fallback-ok = refl

Built-IsWellFormed_example : IsWellFormed fallback.meta
Built-IsWellFormed_example =
    Built-IsWellFormed {e = fallback}
      (defaults 9 safe (pos 10) (omega arith, omega arith) fallback-ok)

-- The plan of `safe`: its two lifetimes in ticks.
abbrev plan : FreshPlan
plan = record {
  logical = lifetime_span 4_000;
  physical = lifetime_span (physical_ttl safe);
  retention = specified none normal;
}

plan-ok : plan_for safe ≡ ok (some plan)
unfolding plan_for size plan_retention
plan-ok = refl

default-plan-ok :
    default_plan (options_for 4_000) ≡ ok (plain (record { lifetime = lifetime_span 4_000 }))
unfolding default_plan plan_for size choose_plan physical_ttl lifetime_span duration_ticks_wide
    plan_retention
default-plan-ok = refl

default_plan_same_example :
    prepare_fresh_with_jitter same_mul nine
      (options_for 4_000)
      (pos 10)
      (pos 10)
      zero_jitter
      []
      none
      none
    ≡ built_with (plain (record { lifetime = lifetime_span 4_000 })) nine (pos 10) [] (
        prepare_fresh_with_jitter same_mul nine
          (options_for 4_000)
          (pos 10)
          (pos 10)
          zero_jitter
          []
          none
          none)
default_plan_same_example =
    default_plan_same same_mul nine (options_for 4_000) (pos 10) []
      (plain (record { lifetime = lifetime_span 4_000 })) (omega arith, omega arith) default-plan-ok
