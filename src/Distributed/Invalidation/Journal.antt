-- ===== src/Distributed/Invalidation/Journal.antt =====
-- src/distributed.rs: what an advance of the journal does, and to which scope.
use amalgam.Prelude.{
  ◌≤◌, ◌<◌, ◌≡◌, ◌≢◌, refl, leb→le, ◌⊎◌, inl, inr, true, none, some, leb, length, Bool-cases,
  Option-cases, arith,
}
use mathlib.Core.Option
use amalgam.Prelude.Assoc.{
  lookup, insert, lookup-insert, lookup-insert_self, length-insert, length-insert-le,
}
use amalgam.Prelude.Result.{Result, ok, err}
use amalgam.Tags.Marker.{
  MarkerKind, MarkerVersion, MarkerAdvanceOutcome, MarkerError, scope_capacity,
}
use amalgam.Tags.Registry
use amalgam.Tags.Registry.{MarkerState, empty_state}
use amalgam.Tags.Registry.Safety.{Reports, advance-Reports}
use amalgam.Tags.Scope.{CacheScope}
use amalgam.Distributed.Invalidation.Keys.{namespace, namespace_eq, namespace_Eq}
use amalgam.Distributed.Invalidation.{InvalidationStore, read, advance}

module _ (store : InvalidationStore) (scope : CacheScope) (kind : MarkerKind)
    (at : MarkerVersion) where
  -- The markers of the scope before, and after an advance that is not refused.
  abbrev pub state_before : MarkerState
  state_before = Option.get_or (lookup (namespace scope) store.scopes) empty_state

  abbrev pub advanced_state : MarkerState × MarkerAdvanceOutcome
  advanced_state = Registry.advance state_before kind at store.limits.max_tags

  abbrev accepted : InvalidationStore
  accepted = record store { scopes = insert (namespace scope) advanced_state.0 store.scopes }

  -- The scope is known, or there is room for it; or else the journal is full.
  advance_cases :
      ((advance store scope kind at ≡ (store, err (scope_capacity store.limits.max_scopes)))
        × (lookup (namespace scope) store.scopes ≡ none)
        × (store.limits.max_scopes ≤ length store.scopes))
      ⊎ ((advance store scope kind at ≡ (accepted, ok advanced_state.1))
          × ((lookup (namespace scope) store.scopes ≢ none)
              ⊎ (length store.scopes < store.limits.max_scopes)))
  unfolding advance
  advance_cases = elim (Option-cases (lookup (namespace scope) store.scopes)) [
    | inl new ↦ elim (Bool-cases (leb store.limits.max_scopes (length store.scopes))) [
      | inl full ↦ inl (rw (new, full), new, leb→le _ _ full)
      | inr room ↦ inr (rw (new, room), inr (ground (arith, room)))
    ]
    | inr (state, hit) ↦ inr (rw hit, inl (λ e. absurd (ground (arith, hit, e))))
  ]

  accepted-bounded :
      ((lookup (namespace scope) store.scopes ≢ none)
        ⊎ (length store.scopes < store.limits.max_scopes))
      → length store.scopes ≤ store.limits.max_scopes
      → length accepted.scopes ≤ store.limits.max_scopes
  accepted-bounded room fits = elim (Option-cases (lookup (namespace scope) store.scopes)) [
    | inl new ↦ elim room [
      | inl known ↦ absurd (known new)
      | inr free ↦ omega (arith, length-insert-le (namespace scope) advanced_state.0 store.scopes)
    ]
    | inr (state, hit) ↦
        ground (arith, length-insert (namespace scope) advanced_state.0 store.scopes, hit)
  ]

  accepted-other :
      (other : CacheScope) (k : MarkerKind)
      → (namespace_eq (namespace scope) (namespace other) ≡ true)
        ⊎ (read accepted other k ≡ read store other k)
  unfolding read
  accepted-other other k = elim (Bool-cases (namespace_eq (namespace scope) (namespace other))) [
    | inl same ↦ inl same
    | inr apart ↦ inr (
        rw (lookup-insert (namespace scope) (namespace other) advanced_state.0 store.scopes, apart))
  ]

  -- What an advance of a journal that is within its limit does: it is refused exactly where the
  -- scope is new and the journal full, and changes nothing then; or the caller is told of the
  -- markers that the scope now has.
  pub record Advances (after : InvalidationStore)
      (outcome : Result MarkerAdvanceOutcome MarkerError) : Type 0 where
    pub bounded : length after.scopes ≤ store.limits.max_scopes
    pub others :
        (other : CacheScope) (k : MarkerKind)
        → (namespace_eq (namespace scope) (namespace other) ≡ true)
          ⊎ (read after other k ≡ read store other k)
    pub answered :
        ((outcome ≡ err (scope_capacity store.limits.max_scopes))
          × (after ≡ store)
          × (lookup (namespace scope) store.scopes ≡ none)
          × (store.limits.max_scopes ≤ length store.scopes))
        ⊎ ((told : MarkerAdvanceOutcome) × (state : MarkerState) × (outcome ≡ ok told)
            × (lookup (namespace scope) after.scopes ≡ some state)
            × Reports state_before kind at state told)

  -- In a journal within its limit, an advance is refused exactly where its scope is new and the
  -- journal full, and then changes nothing; otherwise its outcome tells of the markers that the
  -- scope now has; the journal stays within its limit, and no other scope is affected.
  pub advance-Advances :
      length store.scopes ≤ store.limits.max_scopes
      → Advances (advance store scope kind at).0 (advance store scope kind at).1
  advance-Advances fits = elim advance_cases [
    | inl (e, new, full) ↦ rw e (record {
      bounded = fits;
      others = λ other k. inr refl;
      answered = inl (refl, refl, new, full);
    })
    | inr (e, room) ↦ rw e (record {
      bounded = accepted-bounded room fits;
      others = accepted-other;
      answered = inr (
        advanced_state.1,
        advanced_state.0,
        refl,
        lookup-insert_self (namespace scope) advanced_state.0 store.scopes,
        advance-Reports state_before kind at store.limits.max_tags,
      );
    })
  ]
