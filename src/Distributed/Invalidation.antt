-- ===== src/Distributed/Invalidation.antt =====
-- src/distributed.rs: the in-memory invalidation store, and its journal of durable markers by scope.
-- Each operation holds its locks throughout, so that it is one step.
pub mod Keys
pub mod Journal
pub mod Snapshots
use mathlib.Core.Option
use amalgam.Prelude.{
  ℕ, Bool, true, false, not, Option, none, some, List, [], ◌∷◌, ◌&&◌, leb, length, if◌then◌else◌,
}
use amalgam.Prelude.Assoc.{lookup, insert}
use amalgam.Prelude.Result.{Result, ok, err}
use amalgam.Tags.Marker.{
  MarkerKind, MarkerVersion, MarkerError, scope_capacity, MarkerStoreLimits, StoredMarker,
  MarkerAdvanceOutcome,
}
use amalgam.Tags.Registry
use amalgam.Tags.Registry.{MarkerState, empty_state}
use amalgam.Tags.Scope.{CacheScope}
use amalgam.Tags.Snapshot.{MarkerSnapshot}
use amalgam.Distributed.Invalidation.Keys.{Namespace, namespace, namespace_Eq}

-- The order of the snapshots stands for the iteration order of the hash map.
abbrev pub SnapshotKey : Type 0
SnapshotKey = Namespace × MarkerKind

pub record InvalidationStore : Type 0 where
  pub scopes : List (Namespace × MarkerState)
  pub snapshots : List (SnapshotKey × MarkerSnapshot)
  pub limits : MarkerStoreLimits
  pub max_entries : ℕ

unfoldable pub new : MarkerStoreLimits → ℕ → InvalidationStore
new limits max_entries = record {
  scopes = [];
  snapshots = [];
  limits = limits;
  max_entries = max_entries;
}

-- `scopes.get(scope).and_then(|state| state.read(kind))`
abbrev pub read_in : Option MarkerState → MarkerKind → Option MarkerVersion
read_in none kind = none
read_in (some state) kind = Registry.read state kind

unfoldable pub read : InvalidationStore → CacheScope → MarkerKind → Option MarkerVersion
read store scope kind = read_in (lookup (namespace scope) store.scopes) kind

abbrev is_known : Option MarkerState → Bool
is_known none = false
is_known (some _) = true

unfoldable pub advance :
    InvalidationStore
    → CacheScope
    → MarkerKind
    → MarkerVersion
    → InvalidationStore × Result MarkerAdvanceOutcome MarkerError
advance store scope kind candidate =
    let known = lookup (namespace scope) store.scopes in
    if not (is_known known) && leb store.limits.max_scopes (length store.scopes)
    then (store, err (scope_capacity store.limits.max_scopes))
    else let (state, outcome) =
        Registry.advance (Option.get_or known empty_state) kind candidate store.limits.max_tags in
      (record store { scopes = insert (namespace scope) state store.scopes }, ok outcome)

-- `filter_map` over the requested kinds.
stored_markers : MarkerState → List MarkerKind → List StoredMarker
stored_markers state [] = []
stored_markers state (kind ∷ kinds) =
    let rest = stored_markers state kinds in
    elim (Registry.read state kind) [
      | none ↦ rest
      | some at ↦ record { kind = kind; version = at } ∷ rest
    ]

unfoldable pub read_many_now : InvalidationStore → CacheScope → List MarkerKind → List StoredMarker
unfolding stored_markers
read_many_now store scope kinds = elim (lookup (namespace scope) store.scopes) [
  | none ↦ []
  | some state ↦ stored_markers state kinds
]
