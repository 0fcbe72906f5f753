-- ===== src/Entry/Reuse/Lifetimes.antt =====
-- src/entry.rs: no way of serving an entry again extends the lifetime of its source.
use amalgam.Prelude.{◌≡◌, ◌∙◌, Option, some, arith}
use amalgam.Prelude.Int.{◌≤ℤ◌}
use amalgam.Prelude.Word.{IsI64}
use amalgam.Prelude.Result.{ok}
use amalgam.Time.Duration.{Duration}
use amalgam.Time.Timestamp.{Timestamp}
use amalgam.Time.Timestamp.Laws.{saturating_add_bounds}
use amalgam.Options.Values.{EntryWeight, Priority, F32}
use amalgam.Options.Entry.{EntryOptions}
use amalgam.Options.Resolved.{resolved_memory_duration, physical_ttl}
use amalgam.Entry.Envelope.{Entry, Epochs}
use amalgam.Entry.Envelope.Laws.{IsWellFormed}
use amalgam.Entry.Reuse.{
  try_throttled, at_insertion, without_eager_refresh, with_logical_expiration_at, with_retention,
  for_memory_hydration, prepare_memory_hydration,
}

-- The ways of serving `s` again as `t`, each at representable instants.
pub data Reuse {ℓ} {V : Type ℓ} (epochs : Epochs) (s t : Entry V) : Type ℓ where
  throttles :
      (o : EntryOptions) (now : Timestamp)
      → IsI64 now
      → try_throttled epochs s o now ≡ ok (some t)
      → Reuse epochs s t
  reinserts : (at : Timestamp) → IsI64 at → t ≡ at_insertion s at → Reuse epochs s t
  spends : t ≡ without_eager_refresh s → Reuse epochs s t
  expires :
      (at inserted_at : Timestamp)
      → IsI64 at
      → IsI64 inserted_at
      → t ≡ with_logical_expiration_at s at inserted_at
      → Reuse epochs s t
  retains : (w : Option EntryWeight) (p : Priority) → t ≡ with_retention s w p → Reuse epochs s t
  hydrates :
      (mul_f32 : Duration → F32 → Duration) (o : EntryOptions) (now : Timestamp)
      → IsI64 now
      → for_memory_hydration s mul_f32 epochs o now ≡ ok (some t)
      → Reuse epochs s t

-- What every reuse keeps of its source.
pub record Keeps {ℓ} {V : Type ℓ} (s t : Entry V) : Type ℓ where
  pub well_formed : IsWellFormed t.meta
  pub not_longer : t.meta.physical_expiration ≤ℤ s.meta.physical_expiration
  pub same_value : t.value ≡ s.value
  pub same_created : t.meta.created ≡ s.meta.created
  pub same_tags : t.meta.tags ≡ s.meta.tags
  pub same_etag : t.meta.etag ≡ s.meta.etag
  pub same_fence : t.eligibility ≡ s.eligibility

module _ {ℓ} {V : Type ℓ} where
  throttles-Keeps :
      (epochs : Epochs) (s t : Entry V) (o : EntryOptions) (now : Timestamp)
      → IsWellFormed s.meta
      → IsI64 now
      → try_throttled epochs s o now ≡ ok (some t)
      → Keeps s t
  unfolding try_throttled
  throttles-Keeps epochs s t o now v i h =
      ground (arith, saturating_add_bounds now o.fail_safe_throttle_duration i)

  reinserts-Keeps :
      (s : Entry V) (at : Timestamp) → IsWellFormed s.meta → Keeps s (at_insertion s at)
  unfolding at_insertion
  reinserts-Keeps s at v = ground arith

  expires-Keeps :
      (s : Entry V) (at inserted_at : Timestamp)
      → IsWellFormed s.meta
      → IsI64 at
      → Keeps s (with_logical_expiration_at s at inserted_at)
  unfolding with_logical_expiration_at
  expires-Keeps s at inserted_at v i = ground arith

  hydrates-Keeps :
      (mul_f32 : Duration → F32 → Duration) (epochs : Epochs) (s t : Entry V) (o : EntryOptions)
      (now : Timestamp)
      → IsWellFormed s.meta
      → IsI64 now
      → for_memory_hydration s mul_f32 epochs o now ≡ ok (some t)
      → Keeps s t
  unfolding for_memory_hydration prepare_memory_hydration
  hydrates-Keeps mul_f32 epochs s t o now v i h = ground (
    arith,
    saturating_add_bounds now (resolved_memory_duration o) i,
    saturating_add_bounds now (physical_ttl o) i,
  )

  -- However a well-formed entry is served again, the result is well-formed, lives no longer than its
  -- source, and keeps its value, creation time, tags, entity tag and read fence.
  pub Reuse-Keeps :
      {epochs : Epochs} {s t : Entry V} → Reuse epochs s t → IsWellFormed s.meta → Keeps s t
  unfolding without_eager_refresh with_retention
  Reuse-Keeps {epochs} {s} {t} (throttles o now i h) v = throttles-Keeps epochs s t o now v i h
  Reuse-Keeps {s = s} (reinserts at i e) v = rw e (reinserts-Keeps s at v)
  Reuse-Keeps (spends e) v = rw e (ground arith)
  Reuse-Keeps {s = s} (expires at inserted_at i j e) v = rw e (expires-Keeps s at inserted_at v i)
  Reuse-Keeps (retains w p e) v = rw e (ground arith)
  Reuse-Keeps {epochs} {s} {t} (hydrates mul_f32 o now i h) v =
      hydrates-Keeps mul_f32 epochs s t o now v i h

-- Any number of reuses, the epochs read anew at each.
pub data Reuses {ℓ} {V : Type ℓ} (s : Entry V) : Entry V → Type ℓ where
  here : Reuses s s
  next : {t u : Entry V} (epochs : Epochs) → Reuses s t → Reuse epochs t u → Reuses s u

module _ {ℓ} {V : Type ℓ} where
  Keeps-refl : (s : Entry V) → IsWellFormed s.meta → Keeps s s
  Keeps-refl s v = ground arith

  Keeps-trans : (s t u : Entry V) → Keeps s t → Keeps t u → Keeps s u
  Keeps-trans s t u a b = record {
    well_formed = b.well_formed;
    not_longer = omega (arith, a.not_longer, b.not_longer);
    same_value = b.same_value ∙ a.same_value;
    same_created = b.same_created ∙ a.same_created;
    same_tags = b.same_tags ∙ a.same_tags;
    same_etag = b.same_etag ∙ a.same_etag;
    same_fence = b.same_fence ∙ a.same_fence;
  }

  -- However often a well-formed entry is throttled, expired, reinserted, reweighted, stripped of
  -- its eager refresh or hydrated, the result is well-formed, lives no longer than the original,
  -- and keeps its value, creation time, tags, entity tag and read fence.
  pub Reuses-Keeps : {s t : Entry V} → Reuses s t → IsWellFormed s.meta → Keeps s t
  Reuses-Keeps {s} here v = Keeps-refl s v
  Reuses-Keeps {s} (next {t} {u} epochs r st) v =
      let k = Reuses-Keeps r v in Keeps-trans s t u k (Reuse-Keeps st k.well_formed)
