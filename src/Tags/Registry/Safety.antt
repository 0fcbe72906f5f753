-- ===== src/Tags/Registry/Safety.antt =====
-- src/tags.rs: what a sequence of marker operations guarantees for the verdicts that readers get.
use amalgam.Prelude.{
  ℕ, ◌≤◌, ◌<◌, ◌+◌, ◌≡◌, refl, ◌⊎◌, inl, inr, true, false, Option, none, some, List, [], arith, leb,
  leb→le, length, Bool-cases, ◌&&◌,
}
use amalgam.Prelude.Int.{◌≤ℤ◌, leb_ℤ}
use amalgam.Prelude.Assoc.{lookup, lookup-insert_self, length-insert-le}
use amalgam.Time.Timestamp.{Timestamp}
use amalgam.Options.Values.{RemoveByTagBehavior}
use amalgam.Tags.Tag.{Tag}
use amalgam.Tags.Marker.{
  MarkerKind, tag, clear_expire, clear_remove, MarkerVersion, StoredMarker, MarkerAdvanceOutcome,
  tag_Eq, advanced, compacted,
}
use amalgam.Tags.Registry.{
  MarkerState, read, raise_to, compact, advance, TagRegistry, advance_registry, judge, evaluate,
  empty_state,
}
use amalgam.Tags.Registry.Laws.{
  rank, written, written-rank, compact-rank, concerns, demand, retain_after-nil, fence_of,
  fence-AllLe,
}

-- Readers see the present state, and an unobserved registry has no marker.
pub record IsPublished (r : TagRegistry) : Type 0 where
  pub current : r.snapshot ≡ r.state
  pub quiet : (r.marker_observed ≡ true) ⊎ (r.state ≡ empty_state)
  pub bounded : length r.state.tags ≤ r.capacity

compact-bounded : (s : MarkerState) (m : StoredMarker) → (compact s m).0.tags ≡ []
unfolding compact
compact-bounded s m = retain_after-nil (fence_of s m.version) s.tags (fence-AllLe s m.version)

-- Either the write stands as it is, within capacity, or it is compacted.
advance_cases :
    (s : MarkerState) (kind : MarkerKind) (at : MarkerVersion) (capacity : ℕ)
    → let version = raise_to (read s kind) at in
      let m : StoredMarker = record { kind = kind; version = version } in
      ((length (written s kind at).tags ≤ capacity)
        × (advance s kind at capacity ≡ (written s kind at, advanced m)))
      ⊎ ((capacity < length (written s kind at).tags)
          × (advance s kind at capacity ≡ compact (written s kind at) m))
unfolding advance
advance_cases s kind at capacity =
    elim (Bool-cases (leb (length (written s kind at).tags) capacity)) [
      | inl e ↦ inl (leb→le _ _ e, rw e)
      | inr e ↦ inr (ground arith, rw e)
    ]

advance-bounded :
    (s : MarkerState) (kind : MarkerKind) (at : MarkerVersion) (capacity : ℕ)
    → length (advance s kind at capacity).0.tags ≤ capacity
advance-bounded s kind at capacity = elim (advance_cases s kind at capacity) [
  | inl (fits, e) ↦ rw e fits
  | inr (over, e) ↦ rw (e, compact-bounded) (omega arith)
]

advance-rank :
    (s : MarkerState) (kind : MarkerKind) (at : MarkerVersion) (capacity : ℕ) (created : Timestamp)
    (ts : List Tag) (b : RemoveByTagBehavior)
    → (rank (judge s created ts b) ≤ rank (judge (advance s kind at capacity).0 created ts b))
      × (concerns kind ts ≡ true
          → leb_ℤ created at ≡ true
          → rank (demand kind b) ≤ rank (judge (advance s kind at capacity).0 created ts b))
advance-rank s kind at capacity created ts b =
    let w = written-rank s kind at created ts b in
    elim (advance_cases s kind at capacity) [
      | inl (fits, e) ↦ rw e (w.0, w.1)
      | inr (over, e) ↦
          let c =
            compact-rank (written s kind at)
              (record { kind = kind; version = raise_to (read s kind) at }) created ts b in
          rw e (omega (arith, w.0, c), λ p q. omega (arith, w.1 p q, c))
    ]

-- A marker operation on a published registry is published at once and stays within capacity; no
-- verdict becomes milder; and an entry that the marker is about, created no later than it, gets at
-- least the verdict that the marker asks for, also after a compaction.
pub advance_registry-safe :
    (r : TagRegistry) (kind : MarkerKind) (at : MarkerVersion) (created : Timestamp) (ts : List Tag)
    (b : RemoveByTagBehavior)
    → IsPublished r
    → IsPublished (advance_registry r kind at).0
      × (rank (evaluate r created ts b)
          ≤ rank (evaluate (advance_registry r kind at).0 created ts b))
      × (((concerns kind ts && leb_ℤ created at) ≡ false)
          ⊎ (rank (demand kind b) ≤ rank (evaluate (advance_registry r kind at).0 created ts b)))
unfolding advance_registry evaluate
advance_registry-safe r kind at created ts b v = (
  record { current = refl; quiet = inl refl; bounded = advance-bounded r.state kind at r.capacity },
  evaluate-rank,
  elim (Bool-cases (concerns kind ts && leb_ℤ created at)) [
    | inr e ↦ inl e
    | inl e ↦
        inr ((advance-rank r.state kind at r.capacity created ts b).1 (ground arith) (ground arith))
  ],
)
  where
    evaluate-rank :
        rank (evaluate r created ts b)
        ≤ rank (judge (advance r.state kind at r.capacity).0 created ts b)
    evaluate-rank = elim (Bool-cases r.marker_observed) [
      | inl e ↦ rw (e, v.current) (advance-rank r.state kind at r.capacity created ts b).0
      | inr e ↦ rw e (omega arith)
    ]

read-written :
    (s : MarkerState) (kind : MarkerKind) (at : MarkerVersion)
    → read (written s kind at) kind ≡ some (raise_to (read s kind) at)
unfolding read
read-written s (tag t) at = lookup-insert_self t (raise_to (lookup t s.tags) at) s.tags
read-written s clear_expire at = refl
read-written s clear_remove at = refl

raise_to-le : (old : Option MarkerVersion) (at : MarkerVersion) → at ≤ℤ raise_to old at
raise_to-le none at = omega arith
raise_to-le (some old) at = ground arith

-- What the caller of `advance` is told: an advanced marker of the requested kind, no older than
-- requested, is what a read of that kind now returns; a compacted one comes with the fence that is
-- now the clear-remove marker and is no older than the requested tag.
abbrev pub Reports :
    MarkerState → MarkerKind → MarkerVersion → MarkerState → MarkerAdvanceOutcome → Type 0
Reports s kind at s' (advanced m) =
    (m.kind ≡ kind) × (at ≤ℤ m.version) × (read s' kind ≡ some m.version)
Reports s kind at s' (compacted m fence) =
    (m.kind ≡ kind) × (at ≤ℤ m.version) × (s'.remove_all ≡ some fence) × (s'.tags ≡ [])

compact-Reports :
    (s : MarkerState) (kind : MarkerKind) (at : MarkerVersion)
    → let version = raise_to (read s kind) at in
      let m : StoredMarker = record { kind = kind; version = version } in
      let c = compact (written s kind at) m in Reports s kind at c.0 c.1
unfolding compact read
compact-Reports s (tag t) at = (
  refl,
  raise_to-le (lookup t s.tags) at,
  refl,
  compact-bounded (written s (tag t) at)
      (record { kind = tag t; version = raise_to (lookup t s.tags) at }),
)
compact-Reports s clear_expire at = (
  refl,
  raise_to-le s.expire_all at,
  refl,
  compact-bounded (written s clear_expire at)
      (record { kind = clear_expire; version = raise_to s.expire_all at }),
)
compact-Reports s clear_remove at = (refl, ground (arith, raise_to-le s.remove_all at), refl)

-- An advanced outcome carries the requested kind with a version no older than requested, which is
-- what a read of that kind now returns; a compacted one comes with the fence that is now the
-- clear-remove marker, and leaves no tag.
pub advance-Reports :
    (s : MarkerState) (kind : MarkerKind) (at : MarkerVersion) (capacity : ℕ)
    → Reports s kind at (advance s kind at capacity).0 (advance s kind at capacity).1
advance-Reports s kind at capacity = elim (advance_cases s kind at capacity) [
  | inl (fits, e) ↦ rw e (refl, raise_to-le (read s kind) at, read-written s kind at)
  | inr (over, e) ↦ rw e (compact-Reports s kind at)
]

length-written :
    (s : MarkerState) (kind : MarkerKind) (at : MarkerVersion)
    → length (written s kind at).tags ≤ length s.tags + 1
unfolding read
length-written s (tag t) at = length-insert-le t (raise_to (lookup t s.tags) at) s.tags
length-written s clear_expire at = omega arith
length-written s clear_remove at = omega arith

-- Where the tags fit the capacity, an entry that the marker is not about, or that is newer than
-- it, gets the verdict that it got before.
pub advance_precise :
    (s : MarkerState) (kind : MarkerKind) (at : MarkerVersion) (capacity : ℕ) (created : Timestamp)
    (ts : List Tag) (b : RemoveByTagBehavior)
    → length s.tags + 1 ≤ capacity
    → (concerns kind ts && leb_ℤ created at) ≡ false
    → judge (advance s kind at capacity).0 created ts b ≡ judge s created ts b
advance_precise s kind at capacity created ts b room h = elim (advance_cases s kind at capacity) [
  | inl (fits, e) ↦ rw e ((written-rank s kind at created ts b).2 h)
  | inr (over, e) ↦ absurd (omega (arith, length-written s kind at))
]
