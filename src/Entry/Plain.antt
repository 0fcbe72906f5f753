-- ===== src/Entry/Plain.antt =====
-- src/entry/plain.rs: default writes that carry only their lifetime through the commit.
pub mod Laws
use amalgam.Prelude.{ℕ, Bool, true, false, Option, none, some, List, [], ◌==◌, ◌&&◌, if◌then◌else◌}
use amalgam.Prelude.Result.{Result, ok, err, ◌>>=◌}
use amalgam.Time.Timestamp.{Timestamp, saturating_duration_since, LifetimeSpan, after}
use amalgam.Error.{ConfigError}
use amalgam.Options.Entry.{EntryOptions}
use amalgam.Tags.Tag.{Tag}
use amalgam.Entry.Envelope.{
  Entry, Metadata, RetentionMetadata, unspecified, specified, fresh_origin, local_entry,
}
use amalgam.Entry.Fresh.{FreshPlan, plan_for}

pub record PlainPlan : Type 0 where
  pub lifetime : LifetimeSpan

pub data DefaultFreshPlan : Type 0 where
  plain : PlainPlan → DefaultFreshPlan
  prepared : FreshPlan → DefaultFreshPlan
  general : DefaultFreshPlan

abbrev pub is_unspecified : RetentionMetadata → Bool
is_unspecified unspecified = true
is_unspecified (specified _ _) = false

unfoldable pub choose_plan : Option FreshPlan → DefaultFreshPlan
choose_plan none = general
choose_plan (some plan) =
    if is_unspecified plan.retention && plan.logical == plan.physical
    then plain (record { lifetime = plan.logical })
    else prepared plan

-- `DefaultFreshPlan::for_options`
unfoldable pub default_plan : EntryOptions → Result DefaultFreshPlan ConfigError
unfolding choose_plan
default_plan o = do plan ← plan_for o; ok (choose_plan plan)

pub record PlainMetadata : Type 0 where
  pub created : Timestamp
  pub expires : Timestamp

pub metadata : PlainPlan → Timestamp → PlainMetadata
metadata plan now = record { created = now; expires = after plan.lifetime now }

-- `install`: every field of the replaced metadata is reset.
pub install : PlainMetadata → Metadata → Metadata
install facts old = record old {
  created = facts.created;
  inserted_at = facts.created;
  logical_expiration = facts.expires;
  physical_expiration = facts.expires;
  backend_ttl = saturating_duration_since facts.expires facts.created;
  origin = fresh_origin none;
  etag = none;
  last_modified = none;
  tags = [];
  retention = unspecified;
}

pub data PlainReplacement {ℓ} (V : Type ℓ) : Type ℓ where
  replaced : V → PlainReplacement V
  shared : V → PlainReplacement V

module _ {ℓ} {V : Type ℓ} where
  pub into_fresh : PlainMetadata → V → List Tag → Entry V
  into_fresh facts value tags = record {
    value = value;
    meta = record {
      created = facts.created;
      inserted_at = facts.created;
      logical_expiration = facts.expires;
      physical_expiration = facts.expires;
      backend_ttl = saturating_duration_since facts.expires facts.created;
      origin = fresh_origin none;
      etag = none;
      last_modified = none;
      tags = tags;
      retention = unspecified;
    };
    eligibility = local_entry;
  }

  pub prepare_plain : PlainPlan → V → Timestamp → List Tag → Entry V
  unfolding metadata into_fresh
  prepare_plain plan value now tags = into_fresh (metadata plan now) value tags

  -- `replace_plain`: `unique` is whether `Arc::get_mut` finds no other handle.
  pub replace_plain : Bool → Entry V → V → PlainMetadata → Entry V × PlainReplacement V
  unfolding install
  replace_plain unique e incoming facts =
      if unique
      then (
        record { value = incoming; meta = install facts e.meta; eligibility = local_entry },
        replaced e.value,
      )
      else (e, shared incoming)

  -- `replace_unique_payload` of src/entry.rs: the payload is taken only if the handle is unique.
  pub replace_unique_payload : Bool → Entry V → Entry V → Entry V × Option V
  replace_unique_payload unique e fresh = if unique then (fresh, some e.value) else (e, none)
