-- ===== src/Distributed/Invalidation/Snapshots.antt =====
-- src/distributed.rs: the expiring snapshots of the in-memory invalidation store.
pub mod Laws
pub mod Maximum
pub mod Outcome
pub mod Renewal
pub mod Displacement
pub mod Room
use mathlib.Core.Option
use amalgam.Prelude.{
  ℕ, Bool, true, false, Option, none, some, List, [], ◌∷◌, leb, length, if◌then◌else◌,
}
use amalgam.Prelude.Int.{ltb_ℤ}
use amalgam.Prelude.Assoc.{lookup, insert, remove}
use amalgam.Prelude.Result.{Result, ok, err}
use amalgam.Time.Timestamp.{Timestamp}
use amalgam.Tags.Marker.{MarkerKind, MarkerVersion}
use amalgam.Tags.Scope.{CacheScope}
use amalgam.Tags.Snapshot.{MarkerSnapshot, is_physically_expired, with_maximum, supersedes}
use amalgam.Distributed.Invalidation.Keys.{namespace, snapshot_key_Eq}
use amalgam.Distributed.Invalidation.{InvalidationStore, SnapshotKey, read}

pub data MarkerSnapshotRead : Type 0 where
  snapshot : MarkerSnapshot → MarkerSnapshotRead
  missing : Option MarkerVersion → MarkerSnapshotRead

pub data MarkerSnapshotRenewal : Type 0 where
  stored : MarkerSnapshot → MarkerSnapshotRenewal
  kept_newer : MarkerSnapshot → MarkerSnapshotRenewal
  expired : MarkerSnapshotRenewal

-- `MarkerSnapshotRead::maximum`
abbrev pub maximum : MarkerSnapshotRead → Option MarkerVersion
maximum (snapshot s) = some s.version
maximum (missing at) = at

abbrev pub read_found :
    InvalidationStore
    → SnapshotKey
    → Option MarkerVersion
    → Timestamp
    → Option MarkerSnapshot
    → InvalidationStore × MarkerSnapshotRead
read_found store key at now none = (store, missing at)
read_found store key at now (some s) =
    if is_physically_expired s now
    then (record store { snapshots = remove key store.snapshots }, missing at)
    else (store, snapshot (with_maximum s at))

-- `read_snapshot` between its two looks at the cancellation.
unfoldable pub read_snapshot :
    InvalidationStore → CacheScope → MarkerKind → Timestamp → InvalidationStore × MarkerSnapshotRead
unfolding read
read_snapshot store scope kind now =
    let key : SnapshotKey = (namespace scope, kind) in
    read_found store key (read store scope kind) now (lookup key store.snapshots)

-- `retain(|_, entry| !entry.is_physically_expired(now))`
unfoldable pub retain_live :
    Timestamp → List (SnapshotKey × MarkerSnapshot) → List (SnapshotKey × MarkerSnapshot)
retain_live now [] = []
retain_live now ((key, s) ∷ snapshots) =
    let rest = retain_live now snapshots in
    if is_physically_expired s now then rest else (key, s) ∷ rest

-- `min_by_key(|(_, entry)| entry.created())`: the first of the oldest.
unfoldable pub older :
    SnapshotKey × MarkerSnapshot
    → Option (SnapshotKey × MarkerSnapshot)
    → Option (SnapshotKey × MarkerSnapshot)
older (key, s) none = some (key, s)
older (key, s) (some (other, t)) =
    if ltb_ℤ t.created s.created then some (other, t) else some (key, s)

unfoldable pub oldest : List (SnapshotKey × MarkerSnapshot) → Option (SnapshotKey × MarkerSnapshot)
unfolding older
oldest [] = none
oldest (entry ∷ snapshots) = older entry (oldest snapshots)

-- A new key displaces the oldest snapshot of a full store.
abbrev displace :
    ℕ
    → List (SnapshotKey × MarkerSnapshot)
    → Option MarkerSnapshot
    → Option (SnapshotKey × MarkerSnapshot)
    → List (SnapshotKey × MarkerSnapshot)
displace max_entries snapshots (some _) old = snapshots
displace max_entries snapshots none none = snapshots
displace max_entries snapshots none (some (old, _)) =
    if leb max_entries (length snapshots) then remove old snapshots else snapshots

pub make_room :
    SnapshotKey → ℕ → List (SnapshotKey × MarkerSnapshot) → List (SnapshotKey × MarkerSnapshot)
unfolding oldest
make_room key max_entries snapshots =
    displace max_entries snapshots (lookup key snapshots) (oldest snapshots)

abbrev outranks : Option MarkerSnapshot → MarkerSnapshot → Bool
outranks none s = false
outranks (some current) s = supersedes current s

-- The decision on the live snapshots.
renew_live :
    InvalidationStore
    → SnapshotKey
    → Option MarkerVersion
    → MarkerSnapshot
    → InvalidationStore × MarkerSnapshotRenewal
unfolding make_room
renew_live store key at s =
    let current = lookup key store.snapshots in
    if outranks current s
    then (store, kept_newer (with_maximum (Option.get_or current s) at))
    else let raised = with_maximum s at in
      (
        record store {
          snapshots = insert key raised (make_room key store.max_entries store.snapshots);
        },
        stored raised,
      )

unfoldable pub renew_snapshot_atomic :
    InvalidationStore
    → CacheScope
    → MarkerKind
    → MarkerSnapshot
    → Timestamp
    → InvalidationStore × MarkerSnapshotRenewal
unfolding renew_live
renew_snapshot_atomic store scope kind s now =
    if is_physically_expired s now
    then (store, expired)
    else renew_live (record store { snapshots = retain_live now store.snapshots })
        (namespace scope, kind) (read store scope kind) s

-- The host operations look at the cancellation before and after the store. `before` and `after`
-- are the reasons that they find; a reason that appears late hides the result, not the change.
abbrev checked {ℓ} : {R : Type ℓ} {A : Type ℓ} → Option R → A → Result A R
checked none a = ok a
checked (some reason) a = err reason

abbrev cancelling :
    {R A : Type 0}
    → Option R
    → Option R
    → InvalidationStore
    → InvalidationStore × A
    → InvalidationStore × Result A R
cancelling (some reason) after store step = (store, err reason)
cancelling none after store step = (step.0, checked after step.1)

pub read_snapshot_with_cancellation :
    {R : Type 0}
    → Option R
    → Option R
    → InvalidationStore
    → CacheScope
    → MarkerKind
    → Timestamp
    → InvalidationStore × Result MarkerSnapshotRead R
read_snapshot_with_cancellation before after store scope kind now =
    cancelling before after store (read_snapshot store scope kind now)

-- An expired snapshot is reported without the second look.
pub renew_snapshot :
    {R : Type 0}
    → Option R
    → Option R
    → InvalidationStore
    → CacheScope
    → MarkerKind
    → MarkerSnapshot
    → Timestamp
    → InvalidationStore × Result MarkerSnapshotRenewal R
renew_snapshot before after store scope kind s now =
    cancelling before (if is_physically_expired s now then none else after) store
      (renew_snapshot_atomic store scope kind s now)
