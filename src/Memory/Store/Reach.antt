-- ===== src/Memory/Store/Reach.antt =====
-- src/memory/origin.rs: the states that a store and its outstanding origins can reach.
use amalgam.Prelude.{
  ℕ, zero, suc, ◌≤◌, ◌≡◌, refl, Bool, true, Option, none, some, List, [], ◌∷◌, ◌==◌, ◌&&◌, arith,
  all, any, ltb, leb, Bool-cases, Option-cases, ◌⊎◌, inl, inr,
}
use amalgam.Prelude.Assoc.{lookup}
use amalgam.Prelude.Text.{Text, text_Eq}
use amalgam.Recovery.Work.{u64_max}
use amalgam.Memory.{MemoryLimits, MemoryExpiry}
use amalgam.Memory.Origins.{
  ActiveRevision, Origins, RevisionSnapshot, capture_from, upgraded, chosen,
}
use amalgam.Memory.Retention.{Moment, Retention, new}
use amalgam.Memory.Store.{capture_revision}
use amalgam.Memory.Store.Session.{
  MemoryOrigin, Session, Action, read, write, issue, capture, skip, drop, invalidate, detach,
  discard, clear, expire_all, perform, owned, without,
}
use amalgam.Memory.Store.Registry.{agrees, share-held, IsRegistered}
use amalgam.Memory.Store.Registration.{perform-Registers}
use amalgam.Memory.Store.Counters.{IsTracked, Grows, perform-Grows, perform-epoch}

-- A counter exists, and has not overflowed.
abbrev pub is_issued : Origins → ℕ → Bool
is_issued o c = ltb c o.next_revision && leb (o.current c) u64_max

all-without :
    (p : MemoryOrigin → Bool) (n : ℕ) (os : List MemoryOrigin)
    → all p os ≡ true
    → all p (without n os) ≡ true
all-without p n [] h = refl
all-without p zero (o ∷ os) h = ground arith
all-without p (suc n) (o ∷ os) h = ground (arith, all-without p n os)

abbrev pub issued_or_none : Origins → Option ℕ → Bool
issued_or_none o none = true
issued_or_none o (some c) = is_issued o c

chosen-is_issued :
    (o : Origins) (found provided : Option ℕ)
    → issued_or_none o found ≡ true
    → issued_or_none o provided ≡ true
    → is_issued (chosen o found provided).0 (chosen o found provided).1 ≡ true
chosen-is_issued o (some c) provided f p = f
chosen-is_issued o none (some c) f p = p
chosen-is_issued o none none f p = ground arith

module _ {ℓ} {V : Type ℓ} where
  -- What was captured was there, and was not the last value.
  abbrev pub is_honest : Retention V → MemoryOrigin → Bool
  is_honest r o =
      is_issued r.origins o.snapshot.revision
      && (leb o.snapshot.captured (r.origins.current o.snapshot.revision)
          && (ltb o.snapshot.captured u64_max
              && (leb o.snapshot.generation r.generation && ltb o.snapshot.generation u64_max)))

  pub record IsSound (s : Session V) : Type 0 where
    pub epoch : s.store.generation ≤ u64_max
    pub registry : IsRegistered s.store.origins s.outstanding
    pub honest : all (is_honest s.store) s.outstanding ≡ true

  -- A counter that a caller provides was made before.
  abbrev pub is_permitted : Action V → Session V → Bool
  is_permitted (capture key provided) s = issued_or_none s.store.origins provided
  is_permitted (read key now) s = true
  is_permitted (write key h now expected admission event) s = true
  is_permitted issue s = true
  is_permitted (skip key snapshot) s = true
  is_permitted (drop n) s = true
  is_permitted (invalidate key) s = true
  is_permitted (detach key) s = true
  is_permitted (discard key expected) s = true
  is_permitted clear s = true
  is_permitted (expire_all now) s = true

  pub data Reach : Session V → Type ℓ where
    start :
        (limits : MemoryLimits) (mode : MemoryExpiry)
        → Reach (record { store = new limits mode; outstanding = [] })
    step :
        (at : Moment) (action : Action V) (s : Session V)
        → is_permitted action s ≡ true
        → Reach s
        → Reach (perform at action s)

  -- Growth of every counter keeps the origins honest.
  all-is_honest :
      (r t : Retention V) (os : List MemoryOrigin)
      → r.generation ≤ u64_max
      → ((c : ℕ) → IsTracked c r → Grows c r t)
      → all (is_honest r) os ≡ true
      → all (is_honest t) os ≡ true
  all-is_honest r t [] e g h = refl
  all-is_honest r t (o ∷ os) e g h =
      let i : IsTracked o.snapshot.revision r = record {
        counter = record { issued = ground (arith, h); bounded = ground (arith, h) };
        epoch = e;
      } in
      let (j, (a, b)) = g o.snapshot.revision i in
      let c = j.counter.issued in
      let d = j.counter.bounded in ground (arith, a, b, c, d, h, all-is_honest r t os e g)

  any-is_issued :
      (r : Retention V) (c : ℕ) (os : List MemoryOrigin)
      → all (is_honest r) os ≡ true
      → any (λ o. o.snapshot.revision == c) os ≡ true
      → is_issued r.origins c ≡ true
  any-is_issued r c [] h e = ground arith
  any-is_issued r c (o ∷ os) h e = ground (arith, any-is_issued r c os)

  upgraded-is_issued :
      (at : Moment) (r : Retention V) (os : List MemoryOrigin) (key : Text)
      (found : Option ActiveRevision) (c : ℕ)
      → all (is_honest r) os ≡ true
      → agrees key os found ≡ true
      → upgraded (owned at os) found ≡ some c
      → is_issued r.origins c ≡ true
  upgraded-is_issued at r os key none c h g e = ground arith
  upgraded-is_issued at r os key (some a) c h g e =
      ground (arith, any-is_issued r a.revision os h, share-held key a.revision os)

  -- A captured origin is honest.
  capture-is_honest :
      (at : Moment) (s : Session V) (key : Text) (provided : Option ℕ)
      → IsSound s
      → issued_or_none s.store.origins provided ≡ true
      → ((perform at (capture key provided) s).outstanding ≡ s.outstanding)
        ⊎ ((o : MemoryOrigin) × (((perform at (capture key provided) s).outstanding
                ≡ o ∷ s.outstanding)
              × (is_honest (perform at (capture key provided) s).store o ≡ true)))
  unfolding perform capture_revision capture_from IsRegistered
  capture-is_honest at s key provided v p =
      let o = s.store.origins in
      let found = upgraded (owned at s.outstanding) (lookup key o.active) in
      let o' = (chosen o found provided).0 in
      let revision = (chosen o found provided).1 in
      let f : issued_or_none o found ≡ true = elim (Option-cases found) [
        | inl z ↦ rw z refl
        | inr (c, z) ↦ rw z (
            upgraded-is_issued at s.store s.outstanding key (lookup key o.active) c v.honest
              (v.registry key) z)
      ] in
      let i = chosen-is_issued o found provided f p in
      let snapshot : RevisionSnapshot = record {
        revision = revision;
        captured = o'.current revision;
        generation = s.store.generation;
      } in
      let e = v.epoch in
      elim (Bool-cases (s.store.generation == u64_max)) [
        | inl q ↦ inl (rw q refl)
        | inr q ↦ elim (Bool-cases (o'.current revision == u64_max)) [
          | inl x ↦ inl (rw (q, x) refl)
          | inr x ↦ inr (
            record { key = key; snapshot = snapshot },
            (rw (q, x) refl, rw (q, x) (ground arith)),
          )
        ]
      ]

  perform-is_honest :
      (at : Moment) (action : Action V) (s : Session V)
      → IsSound s
      → is_permitted action s ≡ true
      → all (is_honest (perform at action s).store) s.outstanding ≡ true
      → all (is_honest (perform at action s).store) (perform at action s).outstanding ≡ true
  unfolding perform
  perform-is_honest at (capture key provided) s v p h =
      elim (capture-is_honest at s key provided v p) [
        | inl e ↦ rw e h
        | inr (o, (e, k)) ↦ rw e (ground (arith, h, k))
      ]
  perform-is_honest at (drop n) s v p h =
      all-without (is_honest (perform at (drop n) s).store) n s.outstanding h
  perform-is_honest at (read key now) s v p h = h
  perform-is_honest at (write key w now expected admission event) s v p h = h
  perform-is_honest at issue s v p h = h
  perform-is_honest at (skip key snapshot) s v p h = h
  perform-is_honest at (invalidate key) s v p h = h
  perform-is_honest at (detach key) s v p h = h
  perform-is_honest at (discard key expected) s v p h = h
  perform-is_honest at clear s v p h = h
  perform-is_honest at (expire_all now) s v p h = h

  perform-IsSound :
      (at : Moment) (action : Action V) (s : Session V)
      → IsSound s
      → is_permitted action s ≡ true
      → IsSound (perform at action s)
  perform-IsSound at action s v p =
      let t = perform at action s in
      let g : (c : ℕ) → IsTracked c s.store → Grows c s.store t.store =
        λ c. perform-Grows at action c s in
      let h = all-is_honest s.store t.store s.outstanding v.epoch g v.honest in
      record {
        epoch = perform-epoch at action s v.epoch;
        registry = perform-Registers at action s v.registry;
        honest = perform-is_honest at action s v p h;
      }

  pub Reach-IsSound : (s : Session V) → Reach s → IsSound s
  unfolding IsRegistered new lookup
  Reach-IsSound s (start limits mode) = record {
    epoch = ground arith;
    registry = λ k. refl;
    honest = refl;
  }
  Reach-IsSound s (step at action s' p reach) =
      perform-IsSound at action s' (Reach-IsSound s' reach) p
