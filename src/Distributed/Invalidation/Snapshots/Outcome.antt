-- ===== src/Distributed/Invalidation/Snapshots/Outcome.antt =====
-- src/distributed.rs: what the outcome of a renewal promises.
use amalgam.Prelude.{◌≡◌, true, false, some}
use amalgam.Prelude.Int.{◌≤ℤ◌}
use amalgam.Prelude.Assoc.{lookup}
use amalgam.Time.Timestamp.{Timestamp}
use amalgam.Tags.Marker.{MarkerKind}
use amalgam.Tags.Scope.{CacheScope}
use amalgam.Tags.Snapshot.{MarkerSnapshot, is_physically_expired, with_maximum, supersedes}
use amalgam.Distributed.Invalidation.Keys.{namespace, namespace_Eq, snapshot_key_Eq}
use amalgam.Distributed.Invalidation.{InvalidationStore, read}
use amalgam.Distributed.Invalidation.Snapshots.{
  read_snapshot, snapshot, maximum, stored, kept_newer, MarkerSnapshotRenewal,
}
use amalgam.Distributed.Invalidation.Snapshots.Maximum.{AtMost}

-- What is reported of a renewal is what the store holds: the new snapshot, raised to the durable
-- marker, if no live one supersedes it; or else the live one that does.
pub data Told (before : InvalidationStore) (scope : CacheScope) (kind : MarkerKind)
    (s : MarkerSnapshot) (now : Timestamp) (after : InvalidationStore)
    (outcome : MarkerSnapshotRenewal) (r : MarkerSnapshot) : Type 0 where
  stores :
      outcome ≡ stored r
      → r ≡ with_maximum s (read before scope kind)
      → lookup (namespace scope, kind) after.snapshots ≡ some r
      → ((c : MarkerSnapshot)
          → lookup (namespace scope, kind) before.snapshots ≡ some c
          → is_physically_expired c now ≡ false
          → supersedes c s ≡ false)
      → Told before scope kind s now after outcome r
  keeps :
      (c : MarkerSnapshot)
      → outcome ≡ kept_newer r
      → r ≡ with_maximum c (read before scope kind)
      → lookup (namespace scope, kind) before.snapshots ≡ some c
      → lookup (namespace scope, kind) after.snapshots ≡ some c
      → is_physically_expired c now ≡ false
      → supersedes c s ≡ true
      → Told before scope kind s now after outcome r

-- The outcome of the decision on live snapshots, and what a read then shows until it expires.
pub record Renews (before : InvalidationStore) (scope : CacheScope) (kind : MarkerKind)
    (s : MarkerSnapshot) (now : Timestamp) (after : InvalidationStore)
    (outcome : MarkerSnapshotRenewal) (r : MarkerSnapshot) : Type 0 where
  pub told : Told before scope kind s now after outcome r
  pub alive : is_physically_expired r now ≡ false
  pub shown :
      (later : Timestamp)
      → is_physically_expired r later ≡ false
      → (read_snapshot after scope kind later).1 ≡ snapshot r
  pub no_older : s.version ≤ℤ r.version
  pub durable : AtMost (read before scope kind) r.version
  pub monotone : AtMost (maximum (read_snapshot before scope kind now).1) r.version
