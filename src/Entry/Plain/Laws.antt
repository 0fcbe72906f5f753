-- ===== src/Entry/Plain/Laws.antt =====
-- src/entry/plain.rs: the plain path is an optimisation, and changes no entry.
use amalgam.Prelude.{◌≡◌, refl, ap, inl, inr, ◌∙◌, true, false, Option, none, some, List, [], arith}
use amalgam.Prelude.Word.{IsI64}
use amalgam.Prelude.Result.{Result, ok, Result-cases}
use amalgam.Time.Duration.{Duration}
use amalgam.Time.Timestamp.{Timestamp}
use amalgam.Error.{ConfigError}
use amalgam.Options.Values.{F32, zero_jitter}
use amalgam.Options.Entry.{EntryOptions}
use amalgam.Tags.Tag.{Tag}
use amalgam.Entry.Envelope.{Entry, unspecified}
use amalgam.Entry.Fresh.{FreshPlan, plan_for, prepare, prepare_fresh_with_jitter}
use amalgam.Entry.Fresh.Laws.{prepare_same}
use amalgam.Entry.Plain.{
  PlainPlan, DefaultFreshPlan, plain, prepared, general, choose_plan, default_plan, PlainMetadata,
  into_fresh, prepare_plain, replaced, shared, replace_plain,
}

choose_plan-plain :
    (o : Option FreshPlan) (p : PlainPlan)
    → choose_plan o ≡ plain p
    → (plan : FreshPlan) × (o ≡ some plan)
      × (plan.retention ≡ unspecified)
      × (plan.logical ≡ p.lifetime)
      × (plan.physical ≡ p.lifetime)
unfolding choose_plan
choose_plan-plain none p h = absurd (ground arith)
choose_plan-plain (some plan) p h = (plan, refl, ground arith, ground arith, ground arith)

choose_plan_prepared :
    (o : Option FreshPlan) (plan : FreshPlan) → choose_plan o ≡ prepared plan → o ≡ some plan
unfolding choose_plan
choose_plan_prepared none plan h = ground arith
choose_plan_prepared (some q) plan h = ground arith

default_plan_inv :
    (o : EntryOptions) (d : DefaultFreshPlan)
    → default_plan o ≡ ok d
    → (q : Option FreshPlan) × (plan_for o ≡ ok q) × (choose_plan q ≡ d)
unfolding default_plan
default_plan_inv o d h = elim (Result-cases (plan_for o)) [
  | inl (q, p) ↦ (q, p, ground arith)
  | inr (e, p) ↦ absurd (ground arith)
]

module _ {ℓ} {V : Type ℓ} where
  prepare-plain :
      (plan : FreshPlan) (p : PlainPlan) (value : V) (now : Timestamp) (tags : List Tag)
      → plan.retention ≡ unspecified
      → plan.logical ≡ p.lifetime
      → plan.physical ≡ p.lifetime
      → prepare plan value now tags ≡ prepare_plain p value now tags
  unfolding prepare prepare_plain
  prepare-plain plan p value now tags r l h = ground arith

  -- What a caller that holds the plan builds, given what the general path would build.
  abbrev pub built_with :
      DefaultFreshPlan
      → V
      → Timestamp
      → List Tag
      → Result (Entry V) ConfigError
      → Result (Entry V) ConfigError
  built_with (plain p) value now tags slow = ok (prepare_plain p value now tags)
  built_with (prepared q) value now tags slow = ok (prepare q value now tags)
  built_with general value now tags slow = slow

  -- Whichever plan the options are given ahead of time, the entry that it builds at a
  -- representable instant is the one that the general path builds without jitter.
  pub default_plan_same :
      (mul_f32 : Duration → F32 → Duration) (value : V) (o : EntryOptions) (now : Timestamp)
      (tags : List Tag) (d : DefaultFreshPlan)
      → IsI64 now
      → default_plan o ≡ ok d
      → let slow = prepare_fresh_with_jitter mul_f32 value o now now zero_jitter tags none none in
        slow ≡ built_with d value now tags slow
  default_plan_same mul_f32 value o now tags (plain p) i h =
      let (q, planned, chosen) = default_plan_inv o (plain p) h in
      let (plan, e, r, l, f) = choose_plan-plain q p chosen in
      prepare_same mul_f32 value o now tags plan i (planned ∙ ap ok e)
      ∙ ap ok (prepare-plain plan p value now tags r l f)
  default_plan_same mul_f32 value o now tags (prepared plan) i h =
      let (q, planned, chosen) = default_plan_inv o (prepared plan) h in
      prepare_same mul_f32 value o now tags plan i
        (planned ∙ ap ok (choose_plan_prepared q plan chosen))
  default_plan_same mul_f32 value o now tags general i h = refl

  -- A plain replacement through the only handle leaves exactly the entry that would be built anew
  -- with no tags, and hands back the old value; through a shared handle it changes nothing and hands
  -- back the incoming value.
  pub replace_plain_cases :
      (e : Entry V) (incoming : V) (facts : PlainMetadata)
      → (replace_plain true e incoming facts ≡ (into_fresh facts incoming [], replaced e.value))
        × (replace_plain false e incoming facts ≡ (e, shared incoming))
  unfolding replace_plain into_fresh
  replace_plain_cases e incoming facts = (refl, refl)
