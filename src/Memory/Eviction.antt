-- ===== src/Memory/Eviction.antt =====
-- src/memory.rs: which entries give way to a candidate, and in which order.
pub mod Order
pub mod Victims
use mathlib.Core.Option
use amalgam.Prelude.{
  ℕ, ◌+◌, ◌-◌, Bool, true, false, not, Option, none, some, List, [], ◌∷◌, ◌==◌, ◌&&◌, ◌||◌, ltb,
  leb, length, if◌then◌else◌,
}
use amalgam.Prelude.Assoc.{lookup}
use amalgam.Prelude.Text.{Text, text_eq, text_leb, text_Eq}
use amalgam.Prelude.Result.{Result, ok, err, ◌>>=◌}
use amalgam.Options.Values.{Priority, low, normal, high, never_remove, EntryWeight, eviction_rank}
use amalgam.Entry.Envelope
use amalgam.Entry.Envelope.{Entry}
use amalgam.Memory.{
  MemoryLimits, fits, CapacityRejection, protected_capacity, Handle, CaptureAdmission,
}

-- `Stored`: `access` is the ticket of the last use, `monotonic_expiration` a deadline on the
-- runtime's clock.
pub record Stored {ℓ} (V : Type ℓ) : Type ℓ where
  pub handle : Handle V
  pub access : ℕ
  pub monotonic_expiration : Option ℕ
  pub capture : CaptureAdmission

abbrev pub weight_of : Option EntryWeight → ℕ
weight_of none = 1
weight_of (some w) = w.units

abbrev pub handle_weight {ℓ} : {V : Type ℓ} → Handle V → ℕ
handle_weight h = weight_of (Envelope.size h.entry.meta)

abbrev pub handle_priority {ℓ} : {V : Type ℓ} → Handle V → Priority
handle_priority h = Envelope.priority h.entry.meta

-- `entry_weight`
abbrev pub entry_weight {ℓ} : {V : Type ℓ} → Stored V → ℕ
entry_weight s = handle_weight s.handle

abbrev pub is_pinned : Priority → Bool
is_pinned never_remove = true
is_pinned low = false
is_pinned normal = false
is_pinned high = false

pub record ProjectedCapacity : Type 0 where
  pub entries : ℕ
  pub weight : ℕ

abbrev pub projection_fits : ProjectedCapacity → MemoryLimits → Bool
projection_fits p limits = fits limits p.entries p.weight

pub record EvictionCandidate : Type 0 where
  pub key : Text
  pub priority : Priority
  pub access : ℕ
  pub weight : ℕ

abbrev pub rank : EvictionCandidate → ℕ
rank c = eviction_rank c.priority

-- The order of eviction: the lowest priority first, then the least recently used, then by key.
unfoldable pub precedes : EvictionCandidate → EvictionCandidate → Bool
precedes a b =
    ltb (rank a) (rank b)
    || (rank a == rank b
        && (ltb a.access b.access || (a.access == b.access && text_leb a.key b.key)))

module _ {ℓ} {V : Type ℓ} where
  -- An entry gives way to another key of no lower priority, unless it is pinned.
  unfoldable pub is_evictable : Text → Priority → Text → Stored V → Bool
  is_evictable key priority existing s =
      not (text_eq existing key)
      && (not (is_pinned (handle_priority s.handle))
          && leb (eviction_rank (handle_priority s.handle)) (eviction_rank priority))

  unfoldable pub candidate : Text → Stored V → EvictionCandidate
  candidate k s = record {
    key = k;
    priority = handle_priority s.handle;
    access = s.access;
    weight = entry_weight s;
  }

  unfoldable pub candidates : Text → Priority → List (Text × Stored V) → List EvictionCandidate
  unfolding is_evictable candidate
  candidates key priority [] = []
  candidates key priority ((k, s) ∷ m) =
      let rest = candidates key priority m in
      if is_evictable key priority k s then candidate k s ∷ rest else rest

-- The candidates are sorted; their keys differ, so that any sorting gives this list.
unfoldable pub place : EvictionCandidate → List EvictionCandidate → List EvictionCandidate
place c [] = c ∷ []
place c (d ∷ ds) = let rest = place c ds in if precedes c d then c ∷ d ∷ ds else d ∷ rest

unfoldable pub sort : List EvictionCandidate → List EvictionCandidate
unfolding place
sort [] = []
sort (c ∷ cs) = place c (sort cs)

module _ {ℓ} {V : Type ℓ} where
  unfoldable pub eligible_victims :
      Text → Priority → List (Text × Stored V) → List EvictionCandidate
  unfolding candidates sort
  eligible_victims key priority entries = sort (candidates key priority entries)

-- The loop of `plan`: victims are taken until what is left has room for the candidate.
unfoldable pub take_victims :
    MemoryLimits → ProjectedCapacity → List EvictionCandidate → Result (List Text) CapacityRejection
take_victims limits p [] = err protected_capacity
take_victims limits p (c ∷ cs) =
    let left : ProjectedCapacity = record {
      entries = p.entries - 1;
      weight = p.weight - c.weight;
    } in
    let rest = take_victims limits left cs in
    if projection_fits left limits then ok (c.key ∷ []) else rest >>= λ keys. ok (c.key ∷ keys)

abbrev pub old_weight {ℓ} : {V : Type ℓ} → Option (Stored V) → ℕ
old_weight none = 0
old_weight (some s) = entry_weight s

abbrev pub added {ℓ} : {V : Type ℓ} → Option (Stored V) → ℕ
added none = 1
added (some s) = 0

module _ {ℓ} {V : Type ℓ} where
  -- What the store would hold with the candidate in place of what its key holds.
  unfoldable pub projection : List (Text × Stored V) → ℕ → Text → ℕ → ProjectedCapacity
  projection entries total key weight = record {
    entries = length entries + added (lookup key entries);
    weight = total - old_weight (lookup key entries) + weight;
  }

  unfoldable pub plan :
      MemoryLimits
      → List (Text × Stored V)
      → ℕ
      → Text
      → ℕ
      → Priority
      → Result (List Text) CapacityRejection
  unfolding projection take_victims eligible_victims
  plan limits entries total key weight priority =
      let projected = projection entries total key weight in
      if projection_fits projected limits
      then ok []
      else take_victims limits projected (eligible_victims key priority entries)
