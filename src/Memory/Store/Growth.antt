-- ===== src/Memory/Store/Growth.antt =====
-- src/memory/origin.rs: revisions and generations are never lowered, whatever the store does.
use amalgam.Prelude.{
  ℕ, ◌≤◌, ◌<◌, ◌≡◌, refl, Bool, Option, none, some, List, [], ◌∷◌, ◌∙◌, ◌==◌, arith, Bool-cases,
  Option-cases, ◌⊎◌, inl, inr,
}
use amalgam.Prelude.Assoc.{lookup}
use amalgam.Prelude.Text.{Text, text_Eq}
use amalgam.Time.Timestamp.{Timestamp}
use amalgam.Recovery.Work.{u64_max}
use amalgam.Memory.{CaptureAdmission, Handle, MemoryWriteEvent, RetirementReason}
use amalgam.Memory.Origins.{
  Origins, ActiveRevision, capture_from, forget_over, advance, advance_revision, forget, upgraded,
  chosen,
}
use amalgam.Memory.Eviction.{Stored, handle_weight, projection, projection_fits}
use amalgam.Memory.Retention.{
  Moment, Expected, Retention, take, get, remove_keys, remove_expired, retirement_reason, dead_keys,
  expiry_reason,
}
use amalgam.Memory.Retention.Insert.{
  commit, expire_under_pressure, place_entry, insert_entry, advanced, changes_origin, store,
}
use amalgam.Memory.Retention.Admission.{place_entry-cases, insert_entry-cases}

-- A counter that was made, and that has not overflowed.
pub record IsIssued (c : ℕ) (o : Origins) : Type 0 where
  pub issued : c < o.next_revision
  pub bounded : o.current c ≤ u64_max

-- The counter stays, and is not lowered.
abbrev pub Raises : ℕ → Origins → Origins → Type 0
Raises c o o' = IsIssued c o' × (o.current c ≤ o'.current c)

pub Raises-refl : (c : ℕ) (o : Origins) → IsIssued c o → Raises c o o
Raises-refl c o i = (i, ground arith)

pub advance_revision-Raises :
    (c : ℕ) (o : Origins) (revision : Option ℕ)
    → IsIssued c o
    → Raises c o (advance_revision o revision)
advance_revision-Raises c o none i = Raises-refl c o i
advance_revision-Raises c o (some r) i =
    let b = i.bounded in (record { issued = i.issued; bounded = ground arith }, ground arith)

pub advance-Raises :
    (alive : ℕ → Bool) (c : ℕ) (o : Origins) (key : Text)
    → IsIssued c o
    → Raises c o (advance alive o key)
unfolding advance
advance-Raises alive c o key i =
    advance_revision-Raises c o (upgraded alive (lookup key o.active)) i

pub chosen-Raises :
    (c : ℕ) (o : Origins) (found provided : Option ℕ)
    → IsIssued c o
    → Raises c o (chosen o found provided).0
chosen-Raises c o (some r) provided i = Raises-refl c o i
chosen-Raises c o none (some r) i = Raises-refl c o i
chosen-Raises c o none none i =
    let b = i.bounded in
    let l = i.issued in (record { issued = omega (arith, l); bounded = ground arith }, ground arith)

pub capture_from-Raises :
    (alive : ℕ → Bool) (c : ℕ) (o : Origins) (key : Text) (provided : Option ℕ)
    → IsIssued c o
    → Raises c o (capture_from alive o key provided).0
unfolding capture_from
capture_from-Raises alive c o key provided i =
    let (j, l) = chosen-Raises c o (upgraded alive (lookup key o.active)) provided i in
    let (o', revision) = chosen o (upgraded alive (lookup key o.active)) provided in
    elim (Bool-cases (o'.current revision == u64_max)) [
      | inl q ↦ rw q (j, l)
      | inr q ↦ rw q (record { issued = j.issued; bounded = j.bounded }, l)
    ]

forget_over-Raises :
    (c : ℕ) (o : Origins) (key : Text) (revision : ℕ) (found : Option ActiveRevision)
    → IsIssued c o
    → Raises c o (forget_over o key revision found)
forget_over-Raises c o key revision none i = Raises-refl c o i
forget_over-Raises c o key revision (some a) i = elim (Bool-cases (a.revision == revision)) [
  | inl q ↦ rw q (record { issued = i.issued; bounded = i.bounded }, ground arith)
  | inr q ↦ rw q (Raises-refl c o i)
]

pub forget-Raises :
    (c : ℕ) (o : Origins) (key : Text) (revision : ℕ)
    → IsIssued c o
    → Raises c o (forget o key revision)
unfolding forget
forget-Raises c o key revision i = forget_over-Raises c o key revision (lookup key o.active) i

module _ {ℓ} {V : Type ℓ} where
  -- The parts that only some of the operations change.
  abbrev pub Same : Retention V → Retention V → Type 0
  Same r t = (t.origins ≡ r.origins) × (t.generation ≡ r.generation)

  pub take-Same : (r : Retention V) (key : Text) → Same r (take r key).0
  unfolding take
  take-Same r key = elim (Option-cases (lookup key r.entries)) [
    | inl e ↦ rw e (refl, refl)
    | inr (s, e) ↦ rw e (refl, refl)
  ]

  remove_keys-Same :
      (reason : Stored V → RetirementReason) (ks : List Text) (r : Retention V)
      → Same r (remove_keys reason ks r).0
  unfolding remove_keys
  remove_keys-Same reason [] r = (refl, refl)
  remove_keys-Same reason (k ∷ ks) r =
      let (o, g) = take-Same r k in
      let (o', g') = remove_keys-Same reason ks (take r k).0 in (o' ∙ o, g' ∙ g)

  pub get-Same :
      (at : Moment) (now : Option Timestamp) (r : Retention V) (key : Text)
      → Same r (get at now r key).0
  unfolding get
  get-Same at now r key = elim (Option-cases (lookup key r.entries)) [
    | inl e ↦ rw e (refl, refl)
    | inr (s, e) ↦ elim (Option-cases (retirement_reason at now s)) [
      | inl q ↦ rw (e, q) (refl, refl)
      | inr (why, q) ↦ rw (e, q) (refl, refl)
    ]
  ]

  pub remove_expired-Same :
      (at : Moment) (now : Option Timestamp) (r : Retention V) → Same r (remove_expired at now r).0
  unfolding remove_expired
  remove_expired-Same at now r =
      remove_keys-Same (expiry_reason at now) (dead_keys at now r.entries) r

  advanced-origins :
      (at : Moment) (r : Retention V) (expected : Expected V) (key : Text)
      → ((advanced at r expected key).origins ≡ r.origins)
        ⊎ ((advanced at r expected key).origins ≡ advance at.alive r.origins key)
  advanced-origins at r expected key = elim (Bool-cases (changes_origin expected)) [
    | inl q ↦ rw q (inr refl)
    | inr q ↦ rw q (inl refl)
  ]

  expire_under_pressure-Same :
      (at : Moment) (r : Retention V) (key : Text) (weight : ℕ) (now : Timestamp)
      → Same r (expire_under_pressure at r key weight now).0
  unfolding expire_under_pressure
  expire_under_pressure-Same at r key weight now =
      elim (Bool-cases (projection_fits (projection r.entries r.weight key weight) r.limits)) [
        | inl q ↦ rw q (refl, refl)
        | inr q ↦ rw q (remove_expired-Same at (some now) r)
      ]

  commit-Same :
      (at : Moment) (r : Retention V) (key : Text) (h : Handle V) (victims : List Text)
      (capture : CaptureAdmission) (event : MemoryWriteEvent)
      → Same r (commit at r key h victims capture event).0
  unfolding commit store
  commit-Same at r key h victims capture event =
      let why : Stored V → RetirementReason = λ s. RetirementReason.capacity in
      let (o, g) = remove_keys-Same why victims r in
      let (o', g') = take-Same (remove_keys why victims r).0 key in (o' ∙ o, g' ∙ g)

  pub place_entry-Same :
      (at : Moment) (r : Retention V) (key : Text) (h : Handle V) (now : Timestamp)
      (capture : CaptureAdmission) (event : MemoryWriteEvent)
      → Same r (place_entry at r key h now capture event).0
  place_entry-Same at r key h now capture event =
      let cleared = (expire_under_pressure at r key (handle_weight h) now).0 in
      let (o, g) = expire_under_pressure-Same at r key (handle_weight h) now in
      place_entry-cases (λ q. Same r q.0) at r key h now capture event (λ why. (o, g))
        (λ victims e.
          let (o', g') = commit-Same at cleared key h victims capture event in (o' ∙ o, g' ∙ g))

  -- An insertion moves the origins by an advance of its key, or not at all.
  pub insert_entry-origins :
      (at : Moment) (r : Retention V) (key : Text) (h : Handle V) (now : Timestamp)
      (expected : Expected V) (capture : CaptureAdmission) (event : MemoryWriteEvent)
      → ((insert_entry at r key h now expected capture event).0.generation ≡ r.generation)
        × (((insert_entry at r key h now expected capture event).0.origins ≡ r.origins)
            ⊎ ((insert_entry at r key h now expected capture event).0.origins
                ≡ advance at.alive r.origins key))
  insert_entry-origins at r key h now expected capture event =
      let moved = advanced at r expected key in
      let (o, g) = place_entry-Same at moved key h now capture event in
      insert_entry-cases
        (λ q.
          (q.0.generation ≡ r.generation)
          × ((q.0.origins ≡ r.origins) ⊎ (q.0.origins ≡ advance at.alive r.origins key)))
        at r key h now capture event expected (refl, inl refl)
        (refl, advanced-origins at r expected key)
        (g, elim (advanced-origins at r expected key) [ inl a ↦ inl (o ∙ a) | inr a ↦ inr (o ∙ a) ])
