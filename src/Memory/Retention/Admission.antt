-- ===== src/Memory/Retention/Admission.antt =====
-- src/memory.rs: what an insertion does to the entries of the other keys.
use amalgam.Prelude.{
  ℕ, ◌≡◌, refl, sym, ◌∙◌, Bool, true, false, Option, none, some, List, [], arith, Option-cases,
  Bool-cases, if◌then◌else◌, ◌⊎◌, inl, inr,
}
use amalgam.Prelude.Result.{ok, Result-cases}
use amalgam.Prelude.Assoc.{lookup, lookup-insert}
use amalgam.Prelude.Maps.{listed}
use amalgam.Prelude.Text.{Text, text_eq, text_eq_iff, text_Eq}
use amalgam.Options.Values.{Priority}
use amalgam.Time.Timestamp.{Timestamp}
use amalgam.Memory.{
  fits, CapacityRejection, oversized, version_changed, MemoryAdmission, admitted, replaced,
  rejected, MemoryWriteEvent, CaptureAdmission, RetirementReason, Retirement, Handle,
}
use amalgam.Memory.Eviction.{
  Stored, handle_weight, handle_priority, EvictionCandidate, precedes, candidates, projection_fits,
  take_victims, eligible_victims, plan,
}
use amalgam.Memory.Eviction.Order.{ordered-sort}
use amalgam.Memory.Eviction.Victims.{
  named, offered, named-eligible_victims, named-take_victims, take_victims-precedes,
}
use amalgam.Memory.Retention.{Moment, Expected, Retention, take, is_dead, remove_keys, next_ticket}
use amalgam.Memory.Retention.Weights.{
  IsWeighed, lookup-take, lookup-remove_keys, lookup-remove_expired,
}
use amalgam.Memory.Retention.Room.{projected}
use amalgam.Memory.Retention.Insert.{
  store, commit, expire_under_pressure, place_entry, insert_entry, accepts, advanced,
  commit_planned, kept_capture, deadline, outcome_of,
}

abbrev pub is_admitted : MemoryAdmission → Bool
is_admitted admitted = true
is_admitted replaced = true
is_admitted (rejected reason) = false

module _ {ℓ} {V : Type ℓ} where
  -- The representation that a key holds.
  abbrev pub holds : Option (Stored V) → Option (Handle V)
  holds none = none
  holds (some s) = some s.handle

  -- What a key holds and what is still alive.
  abbrev pub alive_entry : Moment → Timestamp → Option (Stored V) → Option (Stored V)
  alive_entry at now none = none
  alive_entry at now (some s) = if is_dead at (some now) s then none else some s

  outcome_of-is_admitted : (old : Option (Stored V)) → is_admitted (outcome_of old) ≡ true
  outcome_of-is_admitted none = refl
  outcome_of-is_admitted (some s) = refl

  pub lookup-commit :
      (at : Moment) (r : Retention V) (key : Text) (h : Handle V) (victims : List Text)
      (capture : CaptureAdmission) (event : MemoryWriteEvent) (j : Text)
      → (holds (lookup key (commit at r key h victims capture event).0.entries) ≡ some h)
        × ((text_eq key j ≡ true)
            ⊎ (lookup j (commit at r key h victims capture event).0.entries
                ≡ (if listed j victims then none else lookup j r.entries)))
  unfolding commit store
  lookup-commit at r key h victims capture event j =
      let why : Stored V → RetirementReason = λ s. RetirementReason.capacity in
      let freed = (remove_keys why victims r).0 in
      let left = (take freed key).0 in
      let s : Stored V = record {
        handle = h;
        access = next_ticket left.next_access;
        monotonic_expiration = deadline left.expiry_mode at h;
        capture = kept_capture (take freed key).1 event capture;
      } in
      (
        ground (arith, lookup-insert key key s left.entries, text_eq_iff key key),
        ground (
          arith,
          lookup-insert key j s left.entries,
          lookup-take freed key j,
          lookup-remove_keys why victims r j,
        ),
      )

  pub commit-is_admitted :
      (at : Moment) (r : Retention V) (key : Text) (h : Handle V) (victims : List Text)
      (capture : CaptureAdmission) (event : MemoryWriteEvent)
      → is_admitted (commit at r key h victims capture event).1.0 ≡ true
  unfolding commit
  commit-is_admitted at r key h victims capture event =
      let why : Stored V → RetirementReason = λ s. RetirementReason.capacity in
      outcome_of-is_admitted (take (remove_keys why victims r).0 key).1

  -- Expiry under pressure leaves the entries that are alive.
  pub lookup-expire_under_pressure :
      (at : Moment) (r : Retention V) (key : Text) (weight : ℕ) (now : Timestamp) (j : Text)
      → IsWeighed r
      → (lookup j (expire_under_pressure at r key weight now).0.entries ≡ lookup j r.entries)
        ⊎ (lookup j (expire_under_pressure at r key weight now).0.entries
            ≡ alive_entry at now (lookup j r.entries))
  unfolding expire_under_pressure
  lookup-expire_under_pressure at r key weight now j v =
      elim (Bool-cases (projection_fits (projected r key weight) r.limits)) [
        | inl q ↦ inl (rw q refl)
        | inr q ↦ inr (rw q (lookup-remove_expired at (some now) r j v))
      ]

  -- A victim of a plan is evictable, and comes before the evictable entries that stay.
  pub plan-evictable :
      (r : Retention V) (key : Text) (w : ℕ) (priority : Priority) (victims : List Text) (k : Text)
      → IsWeighed r
      → plan r.limits r.entries r.weight key w priority ≡ ok victims
      → listed k victims ≡ true
      → (c : EvictionCandidate) × (offered key priority k (lookup k r.entries) ≡ some c)
  unfolding plan
  plan-evictable r key w priority victims k v e l =
      let cs = eligible_victims key priority r.entries in
      let n = named-eligible_victims key priority k r.entries v.keyed in
      elim (Bool-cases (projection_fits (projected r key w) r.limits)) [
        | inl q ↦ ground (arith, q, e, l)
        | inr q ↦ elim (Option-cases (named k cs)) [
          | inl z ↦
              let t : take_victims r.limits (projected r key w) cs ≡ ok victims =
                ground (arith, q, e) in
              ground (arith, named-take_victims r.limits (projected r key w) cs victims k t l)
          | inr (c, z) ↦ (c, sym n ∙ z)
        ]
      ]

  pub plan-precedes :
      (r : Retention V) (key : Text) (w : ℕ) (priority : Priority) (victims : List Text)
      (k j : Text) (c d : EvictionCandidate)
      → IsWeighed r
      → plan r.limits r.entries r.weight key w priority ≡ ok victims
      → listed k victims ≡ true
      → listed j victims ≡ false
      → offered key priority k (lookup k r.entries) ≡ some c
      → offered key priority j (lookup j r.entries) ≡ some d
      → precedes c d ≡ true
  unfolding plan eligible_victims
  plan-precedes r key w priority victims k j c d v e hk hj ck dj =
      let cs = eligible_victims key priority r.entries in
      let nk = named-eligible_victims key priority k r.entries v.keyed in
      let nj = named-eligible_victims key priority j r.entries v.keyed in
      elim (Bool-cases (projection_fits (projected r key w) r.limits)) [
        | inl q ↦ ground (arith, q, e, hk)
        | inr q ↦
            let t : take_victims r.limits (projected r key w) cs ≡ ok victims =
              ground (arith, q, e) in
            take_victims-precedes r.limits (projected r key w) cs victims k j c d t
              (ordered-sort (candidates key priority r.entries)) hk hj (nk ∙ ck) (nj ∙ dj)
      ]

module _ {ℓ κ} {V : Type ℓ} (P : Retention V × (MemoryAdmission × List (Retirement V)) → Type κ)
    (at : Moment) (r : Retention V) (key : Text) (h : Handle V) (now : Timestamp)
    (capture : CaptureAdmission) (event : MemoryWriteEvent) where
  -- What holds of a refusal of the plan, and of a commit of it, holds of the insertion.
  pub place_entry-cases :
      ((why : CapacityRejection)
        → P (
          (expire_under_pressure at r key (handle_weight h) now).0,
          (rejected why, (expire_under_pressure at r key (handle_weight h) now).1),
        ))
      → ((victims : List Text)
          → plan
              (expire_under_pressure at r key (handle_weight h) now).0.limits
              (expire_under_pressure at r key (handle_weight h) now).0.entries
              (expire_under_pressure at r key (handle_weight h) now).0.weight
              key
              (handle_weight h)
              (handle_priority h)
            ≡ ok victims
          → P (
              commit_planned at
                (expire_under_pressure at r key (handle_weight h) now).0
                (expire_under_pressure at r key (handle_weight h) now).1
                key
                h
                capture
                event
                (ok victims)))
      → P (place_entry at r key h now capture event)
  unfolding place_entry
  place_entry-cases on_refusal on_commit =
      let cleared = (expire_under_pressure at r key (handle_weight h) now).0 in
      let p =
        plan cleared.limits cleared.entries cleared.weight key (handle_weight h)
          (handle_priority h) in
      elim (Result-cases p) [
        | inl (victims, q) ↦ rw q (on_commit victims q)
        | inr (why, q) ↦ rw q (on_refusal why)
      ]

  pub insert_entry-cases :
      (expected : Expected V)
      → P (r, (rejected version_changed, []))
      → P (advanced at r expected key, (rejected oversized, []))
      → P (place_entry at (advanced at r expected key) key h now capture event)
      → P (insert_entry at r key h now expected capture event)
  unfolding insert_entry
  insert_entry-cases expected refused large placed =
      elim (Bool-cases (accepts r expected (lookup key r.entries))) [
        | inr q ↦ rw q refused
        | inl q ↦ elim (Bool-cases (fits r.limits 1 (handle_weight h))) [
          | inl f ↦ rw (q, f) placed
          | inr f ↦ rw (q, f) large
        ]
      ]
