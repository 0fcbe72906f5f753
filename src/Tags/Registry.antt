-- ===== src/Tags/Registry.antt =====
-- src/tags.rs: the marker state and the registry of a cache. The mutex makes each `advance` one
-- step; readers see the snapshot that the last step published.
pub mod Laws
pub mod Safety
use mathlib.Core.Option
use amalgam.Prelude.{
  ℕ, Bool, true, false, not, Option, none, some, List, [], ◌∷◌, ◌==◌, leb, any, length,
  if◌then◌else◌,
}
use amalgam.Prelude.Int.{ℤ, ltb_ℤ, leb_ℤ, max_ℤ}
use amalgam.Prelude.Assoc.{lookup, insert}
use amalgam.Prelude.Result.{Result, ok, err}
use amalgam.Time.Timestamp.{Timestamp}
use amalgam.Options.Values.{RemoveByTagBehavior}
use amalgam.Options.Values
use amalgam.Tags.Tag.{Tag}
use amalgam.Tags.Marker.{
  MarkerKind, tag, clear_expire, clear_remove, MarkerVersion, StoredMarker, MarkerAdvanceOutcome,
  advanced, compacted, marker, kind_eq, MarkerError, zero_capacity, tag_Eq,
}

pub data TagVerdict : Type 0 where
  valid expire remove : TagVerdict

pub record MarkerState : Type 0 where
  pub tags : List (Tag × MarkerVersion)
  pub expire_all : Option MarkerVersion
  pub remove_all : Option MarkerVersion

abbrev pub empty_state : MarkerState
empty_state = record { tags = []; expire_all = none; remove_all = none }

unfoldable pub read : MarkerState → MarkerKind → Option MarkerVersion
read s (tag t) = lookup t s.tags
read s clear_expire = s.expire_all
read s clear_remove = s.remove_all

-- `old.map_or(candidate, |old| old.max(candidate))`
abbrev pub raise_to : Option MarkerVersion → MarkerVersion → MarkerVersion
raise_to none candidate = candidate
raise_to (some old) candidate = max_ℤ old candidate

abbrev pub write : MarkerState → MarkerKind → MarkerVersion → MarkerState
write s (tag t) version = record s { tags = insert t version s.tags }
write s clear_expire version = record s { expire_all = some version }
write s clear_remove version = record s { remove_all = some version }

-- `values().copied().max()`
pub max_value : List (Tag × MarkerVersion) → Option MarkerVersion
max_value [] = none
max_value ((t, v) ∷ m) = some (elim (max_value m) [ none ↦ v | some w ↦ max_ℤ v w ])

-- `retain(|_, at| *at > clear_remove)`
pub retain_after : MarkerVersion → List (Tag × MarkerVersion) → List (Tag × MarkerVersion)
retain_after bound [] = []
retain_after bound ((t, v) ∷ m) =
    let rest = retain_after bound m in if ltb_ℤ bound v then (t, v) ∷ rest else rest

-- The tombstones give way to a clear-remove fence at least as new as the newest of them.
pub compact : MarkerState → StoredMarker → MarkerState × MarkerAdvanceOutcome
compact s m =
    let through = Option.get_or (max_value s.tags) m.version in
    let fence = raise_to s.remove_all through in
    (
      record s { tags = retain_after fence s.tags; remove_all = some fence },
      (if kind_eq m.kind clear_remove
          then advanced (record { kind = clear_remove; version = fence })
          else compacted m fence),
    )

unfoldable pub advance :
    MarkerState → MarkerKind → MarkerVersion → ℕ → MarkerState × MarkerAdvanceOutcome
unfolding compact
advance s kind candidate capacity =
    let version = raise_to (read s kind) candidate in
    let written = write s kind version in
    let m : StoredMarker = record { kind = kind; version = version } in
    if leb (length written.tags) capacity then (written, advanced m) else compact written m

pub record TagRegistry : Type 0 where
  pub state : MarkerState
  pub snapshot : MarkerState
  pub marker_observed : Bool
  pub capacity : ℕ

-- `TagRegistry::default`
abbrev pub default_registry : TagRegistry
default_registry = record {
  state = empty_state;
  snapshot = empty_state;
  marker_observed = false;
  capacity = 4096;
}

unfoldable pub with_capacity : ℕ → Result TagRegistry MarkerError
with_capacity capacity =
    if capacity == 0
    then err zero_capacity
    else ok (record default_registry { capacity = capacity })

-- `TagRegistry::advance`: one critical section, published before it ends. Its two publications, of
-- the state and of the flag, are one step here; the flag is what a reader without the mutex sees last.
unfoldable pub advance_registry :
    TagRegistry → MarkerKind → MarkerVersion → TagRegistry × MarkerAdvanceOutcome
advance_registry r kind at =
    let (state, outcome) = advance r.state kind at r.capacity in
    (record r { state = state; snapshot = state; marker_observed = true }, outcome)

unfoldable pub mark_tag : TagRegistry → Tag → Timestamp → TagRegistry
mark_tag r t at = (advance_registry r (tag t) at).0

unfoldable pub mark_clear_expire : TagRegistry → Timestamp → TagRegistry
mark_clear_expire r at = (advance_registry r clear_expire at).0

unfoldable pub mark_clear_remove : TagRegistry → Timestamp → TagRegistry
mark_clear_remove r at = (advance_registry r clear_remove at).0

unfoldable pub marker_version : TagRegistry → MarkerKind → Option MarkerVersion
marker_version r kind = read r.snapshot kind

-- `is_some_and(|at| created <= at)`
abbrev pub covers : Option MarkerVersion → Timestamp → Bool
covers none created = false
covers (some at) created = leb_ℤ created at

abbrev pub by_tag : RemoveByTagBehavior → TagVerdict
by_tag Values.RemoveByTagBehavior.expire = expire
by_tag Values.RemoveByTagBehavior.remove = remove

abbrev pub tagged : MarkerState → Timestamp → List Tag → Bool
tagged s created = any (λ t. covers (lookup t s.tags) created)

unfoldable pub judge : MarkerState → Timestamp → List Tag → RemoveByTagBehavior → TagVerdict
judge s created tags behavior =
    if covers s.remove_all created
    then remove
    else if tagged s created tags
    then by_tag behavior
    else if covers s.expire_all created
    then expire
    else valid

unfoldable pub evaluate : TagRegistry → Timestamp → List Tag → RemoveByTagBehavior → TagVerdict
unfolding judge
evaluate r created tags behavior =
    if not r.marker_observed then valid else judge r.snapshot created tags behavior

unfoldable pub tag_count : TagRegistry → ℕ
tag_count r = length r.snapshot.tags
