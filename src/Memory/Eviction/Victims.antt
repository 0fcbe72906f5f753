-- ===== src/Memory/Eviction/Victims.antt =====
-- src/memory.rs: the candidates of an eviction are the evictable entries, each with its own data, and
-- the victims are first in the order.
use amalgam.Prelude.{
  ℕ, ◌-◌, ◌≡◌, refl, Bool, true, false, not, Option, none, some, List, [], ◌∷◌, ◌==◌, ◌&&◌, arith,
  all, if◌then◌else◌, inl, inr,
}
use amalgam.Prelude.Result.{ok, Result-cases}
use amalgam.Prelude.Assoc.{lookup}
use amalgam.Prelude.Maps.{distinct, is_none, listed}
use amalgam.Prelude.Text.{Text, text_eq, text_eq_iff, text_Eq}
use amalgam.Options.Values.{Priority}
use amalgam.Memory.{MemoryLimits}
use amalgam.Memory.Eviction.{
  Stored, entry_weight, EvictionCandidate, ProjectedCapacity, precedes, is_evictable, candidate,
  candidates, place, sort, eligible_victims, take_victims,
}
use amalgam.Memory.Eviction.Order.{ordered, all-sort}

-- The candidate for a key.
abbrev pub named : Text → List EvictionCandidate → Option EvictionCandidate
named k [] = none
named k (c ∷ cs) = if text_eq c.key k then some c else named k cs

abbrev pub unlisted : Text → List EvictionCandidate → Bool
unlisted k cs = all (λ c. not (text_eq c.key k)) cs

abbrev pub unique : List EvictionCandidate → Bool
unique [] = true
unique (c ∷ cs) = unlisted c.key cs && unique cs

unlisted-place :
    (k : Text) (c : EvictionCandidate) (cs : List EvictionCandidate)
    → unlisted k (place c cs) ≡ (not (text_eq c.key k) && unlisted k cs)
unfolding place
unlisted-place k c [] = ground arith
unlisted-place k c (d ∷ ds) = ground (arith, unlisted-place k c ds)

unique-place :
    (c : EvictionCandidate) (cs : List EvictionCandidate)
    → unlisted c.key cs ≡ true
    → unique cs ≡ true
    → unique (place c cs) ≡ true
unfolding place
unique-place c [] h k = refl
unique-place c (d ∷ ds) h k = ground (
  arith,
  unique-place c ds,
  unlisted-place d.key c ds,
  text_eq_iff c.key d.key,
  text_eq_iff d.key c.key,
)

unlisted-sort : (k : Text) (cs : List EvictionCandidate) → unlisted k (sort cs) ≡ unlisted k cs
unlisted-sort k cs = all-sort (λ c. not (text_eq c.key k)) cs

unique-sort : (cs : List EvictionCandidate) → unique cs ≡ true → unique (sort cs) ≡ true
unfolding sort
unique-sort [] h = refl
unique-sort (c ∷ cs) h =
    ground (arith, unique-sort cs, unlisted-sort c.key cs, unique-place c (sort cs))

named-place :
    (k : Text) (c : EvictionCandidate) (cs : List EvictionCandidate)
    → unlisted c.key cs ≡ true
    → named k (place c cs) ≡ (if text_eq c.key k then some c else named k cs)
unfolding place
named-place k c [] h = refl
named-place k c (d ∷ ds) h =
    ground
      (arith, named-place k c ds, text_eq_iff c.key k, text_eq_iff d.key k, text_eq_iff d.key c.key)

named-sort :
    (k : Text) (cs : List EvictionCandidate) → unique cs ≡ true → named k (sort cs) ≡ named k cs
unfolding sort
named-sort k [] h = refl
named-sort k (c ∷ cs) h =
    ground (arith, named-sort k cs, named-place k c (sort cs), unlisted-sort c.key cs)

module _ {ℓ} {V : Type ℓ} where
  -- What a key's entry contributes to the candidates.
  abbrev pub offered : Text → Priority → Text → Option (Stored V) → Option EvictionCandidate
  offered key priority j none = none
  offered key priority j (some s) =
      if is_evictable key priority j s then some (candidate j s) else none

  -- A candidate with the weight of the entry that its key holds, another key than `key`.
  abbrev pub weighs : ℕ → Option (Stored V) → Bool
  weighs w none = false
  weighs w (some s) = w == entry_weight s

  abbrev pub backed : Text → List (Text × Stored V) → EvictionCandidate → Bool
  backed key m c = not (text_eq c.key key) && weighs c.weight (lookup c.key m)

  unlisted-candidates :
      (key : Text) (priority : Priority) (k : Text) (m : List (Text × Stored V))
      → lookup k m ≡ none
      → unlisted k (candidates key priority m) ≡ true
  unfolding candidates candidate lookup
  unlisted-candidates key priority k [] h = refl
  unlisted-candidates key priority k ((j, s) ∷ m) h =
      ground (arith, unlisted-candidates key priority k m)

  unique-candidates :
      (key : Text) (priority : Priority) (m : List (Text × Stored V))
      → distinct m ≡ true
      → unique (candidates key priority m) ≡ true
  unfolding candidates candidate
  unique-candidates key priority [] d = refl
  unique-candidates key priority ((j, s) ∷ m) d =
      ground (arith, unique-candidates key priority m, unlisted-candidates key priority j m)

  named-candidates :
      (key : Text) (priority : Priority) (k : Text) (m : List (Text × Stored V))
      → distinct m ≡ true
      → named k (candidates key priority m) ≡ offered key priority k (lookup k m)
  unfolding candidates candidate lookup is_evictable
  named-candidates key priority k [] d = refl
  named-candidates key priority k ((j, s) ∷ m) d =
      ground (arith, named-candidates key priority k m, text_eq_iff j k)

  backed-push :
      (key : Text) (j : Text) (s : Stored V) (m : List (Text × Stored V))
      (cs : List EvictionCandidate)
      → lookup j m ≡ none
      → all (backed key m) cs ≡ true
      → all (backed key ((j, s) ∷ m)) cs ≡ true
  unfolding lookup
  backed-push key j s m [] h k = refl
  backed-push key j s m (c ∷ cs) h k = ground (arith, backed-push key j s m cs, text_eq_iff j c.key)

  backed-candidates :
      (key : Text) (priority : Priority) (m : List (Text × Stored V))
      → distinct m ≡ true
      → all (backed key m) (candidates key priority m) ≡ true
  unfolding candidates candidate lookup is_evictable
  backed-candidates key priority [] d = refl
  backed-candidates key priority ((j, s) ∷ m) d =
      let rest = backed-push key j s m (candidates key priority m) in
      ground (arith, backed-candidates key priority m, rest, text_eq_iff j j)

  pub named-eligible_victims :
      (key : Text) (priority : Priority) (k : Text) (m : List (Text × Stored V))
      → distinct m ≡ true
      → named k (eligible_victims key priority m) ≡ offered key priority k (lookup k m)
  unfolding eligible_victims
  named-eligible_victims key priority k m d =
      rw (named-sort k (candidates key priority m) (unique-candidates key priority m d))
        (named-candidates key priority k m d)

  pub eligible_victims-IsBacked :
      (key : Text) (priority : Priority) (m : List (Text × Stored V))
      → distinct m ≡ true
      → (all (backed key m) (eligible_victims key priority m) ≡ true)
        × (unique (eligible_victims key priority m) ≡ true)
  unfolding eligible_victims
  eligible_victims-IsBacked key priority m d = (
    rw (all-sort (backed key m) (candidates key priority m)) (backed-candidates key priority m d),
    unique-sort (candidates key priority m) (unique-candidates key priority m d),
  )

-- The victims are candidates.
pub named-take_victims :
    (limits : MemoryLimits) (p : ProjectedCapacity) (cs : List EvictionCandidate) (ks : List Text)
    (k : Text)
    → take_victims limits p cs ≡ ok ks
    → listed k ks ≡ true
    → is_none (named k cs) ≡ false
unfolding take_victims
named-take_victims limits p [] ks k e h = ground arith
named-take_victims limits p (c ∷ cs) ks k e h =
    let left : ProjectedCapacity = record {
      entries = p.entries - 1;
      weight = p.weight - c.weight;
    } in
    elim (Result-cases (take_victims limits left cs)) [
      | inl (js, q) ↦ ground (arith, named-take_victims limits left cs js k q)
      | inr (why, q) ↦ ground arith
    ]

named-precedes :
    (c d : EvictionCandidate) (k : Text) (cs : List EvictionCandidate)
    → all (precedes c) cs ≡ true
    → named k cs ≡ some d
    → precedes c d ≡ true
named-precedes c d k [] h e = ground arith
named-precedes c d k (x ∷ cs) h e = ground (arith, named-precedes c d k cs)

-- A victim comes before each candidate that stays.
pub take_victims-precedes :
    (limits : MemoryLimits) (p : ProjectedCapacity) (cs : List EvictionCandidate) (ks : List Text)
    (k j : Text) (c d : EvictionCandidate)
    → take_victims limits p cs ≡ ok ks
    → ordered cs ≡ true
    → listed k ks ≡ true
    → listed j ks ≡ false
    → named k cs ≡ some c
    → named j cs ≡ some d
    → precedes c d ≡ true
unfolding take_victims
take_victims-precedes limits p [] ks k j c d e o hk hj ek ej = ground arith
take_victims-precedes limits p (x ∷ cs) ks k j c d e o hk hj ek ej =
    let left : ProjectedCapacity = record {
      entries = p.entries - 1;
      weight = p.weight - x.weight;
    } in
    elim (Result-cases (take_victims limits left cs)) [
      | inl (js, q) ↦
          ground (arith, take_victims-precedes limits left cs js k j c d q, named-precedes x d j cs)
      | inr (why, q) ↦ ground (arith, named-precedes x d j cs)
    ]
