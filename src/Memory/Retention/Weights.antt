-- ===== src/Memory/Retention/Weights.antt =====
-- src/memory.rs: the store's count of its weight agrees with its entries, whatever is removed.
use amalgam.Prelude.{
  ◌≤◌, ◌≡◌, refl, ◌∙◌, sym, true, false, Option, none, some, List, [], ◌∷◌, arith, length,
  Option-cases, inl, inr, if◌then◌else◌,
}
use amalgam.Prelude.Assoc.{lookup, lookup-remove}
use amalgam.Prelude.Maps.{distinct, total, listed, distinct-remove, total-remove}
use amalgam.Prelude.Text.{Text, text_eq, text_eq_iff, text_Eq}
use amalgam.Time.Timestamp.{Timestamp}
use amalgam.Memory.{RetirementReason}
use amalgam.Memory.Eviction.{Stored, entry_weight}
use amalgam.Memory.Retention.{
  Moment, Retention, take, removed, remove_keys, remove_expired, is_dead, dead_keys, expiry_reason,
}

module _ {ℓ} {V : Type ℓ} where
  -- Each key is stored once, and the counted weight is that of the entries.
  pub record IsWeighed (r : Retention V) : Type ℓ where
    pub keyed : distinct r.entries ≡ true
    pub weighed : r.weight ≡ total entry_weight r.entries

  -- The parts that removals leave alone, and what shrinks.
  pub record IsPruned (r t : Retention V) : Type ℓ where
    pub same_limits : t.limits ≡ r.limits
    pub same_origins : t.origins ≡ r.origins
    pub same_generation : t.generation ≡ r.generation
    pub same_mode : t.expiry_mode ≡ r.expiry_mode
    pub shorter : length t.entries ≤ length r.entries
    pub lighter : t.weight ≤ r.weight

  pub take-IsWeighed : (r : Retention V) (k : Text) → IsWeighed r → IsWeighed (take r k).0
  unfolding take
  take-IsWeighed r k v = elim (Option-cases (lookup k r.entries)) [
    | inl e ↦ rw e v
    | inr (s, e) ↦
        let t = total-remove entry_weight k r.entries s v.keyed e in
        rw e (record {
          keyed = distinct-remove k r.entries v.keyed;
          weighed = omega (arith, t, v.weighed);
        })
  ]

  pub removed-IsWeighed :
      (r : Retention V) (k : Text) (found : Option (Stored V))
      → lookup k r.entries ≡ found
      → IsWeighed r
      → IsWeighed (removed r k found)
  unfolding take
  removed-IsWeighed r k found e v = rw (sym e) (take-IsWeighed r k v)

  pub take-IsPruned : (r : Retention V) (k : Text) → IsWeighed r → IsPruned r (take r k).0
  unfolding take
  take-IsPruned r k v = elim (Option-cases (lookup k r.entries)) [
    | inl e ↦ rw e (ground arith)
    | inr (s, e) ↦ rw e (ground (arith, total-remove entry_weight k r.entries s v.keyed))
  ]

  pub lookup-take :
      (r : Retention V) (k j : Text)
      → lookup j (take r k).0.entries ≡ (if text_eq k j then none else lookup j r.entries)
  unfolding take
  lookup-take r k j = elim (Option-cases (lookup k r.entries)) [
    | inl e ↦ ground (arith, text_eq_iff k j)
    | inr (s, e) ↦ rw e (lookup-remove k j r.entries)
  ]

  IsPruned-trans : (r s t : Retention V) → IsPruned r s → IsPruned s t → IsPruned r t
  IsPruned-trans r s t a b = record {
    same_limits = b.same_limits ∙ a.same_limits;
    same_origins = b.same_origins ∙ a.same_origins;
    same_generation = b.same_generation ∙ a.same_generation;
    same_mode = b.same_mode ∙ a.same_mode;
    shorter = omega (arith, a.shorter, b.shorter);
    lighter = omega (arith, a.lighter, b.lighter);
  }

  pub remove_keys-IsWeighed :
      (reason : Stored V → RetirementReason) (ks : List Text) (r : Retention V)
      → IsWeighed r
      → IsWeighed (remove_keys reason ks r).0 × IsPruned r (remove_keys reason ks r).0
  unfolding remove_keys
  remove_keys-IsWeighed reason [] r v = (v, ground arith)
  remove_keys-IsWeighed reason (k ∷ ks) r v =
      let (w, p) = remove_keys-IsWeighed reason ks (take r k).0 (take-IsWeighed r k v) in
      (w, IsPruned-trans r (take r k).0 _ (take-IsPruned r k v) p)

  pub lookup-remove_keys :
      (reason : Stored V → RetirementReason) (ks : List Text) (r : Retention V) (j : Text)
      → lookup j (remove_keys reason ks r).0.entries
        ≡ (if listed j ks then none else lookup j r.entries)
  unfolding remove_keys
  lookup-remove_keys reason [] r j = refl
  lookup-remove_keys reason (k ∷ ks) r j =
      ground (arith, lookup-remove_keys reason ks (take r k).0 j, lookup-take r k j)

  -- The expired keys are exactly those of dead entries.
  pub listed-dead_keys :
      (at : Moment) (now : Option Timestamp) (m : List (Text × Stored V)) (j : Text)
      → distinct m ≡ true
      → listed j (dead_keys at now m)
        ≡ elim (lookup j m) [ none ↦ false | some s ↦ is_dead at now s ]
  unfolding lookup
  listed-dead_keys at now [] j d = refl
  listed-dead_keys at now ((k, s) ∷ m) j d =
      ground (arith, listed-dead_keys at now m j, text_eq_iff k j)

  pub lookup-remove_expired :
      (at : Moment) (now : Option Timestamp) (r : Retention V) (j : Text)
      → IsWeighed r
      → lookup j (remove_expired at now r).0.entries ≡ elim (lookup j r.entries) [
        | none ↦ none
        | some s ↦ if is_dead at now s then none else some s
      ]
  unfolding remove_expired
  lookup-remove_expired at now r j v = ground (
    arith,
    lookup-remove_keys (expiry_reason at now) (dead_keys at now r.entries) r j,
    listed-dead_keys at now r.entries j v.keyed,
  )
