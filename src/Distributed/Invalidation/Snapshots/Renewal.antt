-- ===== src/Distributed/Invalidation/Snapshots/Renewal.antt =====
-- src/distributed.rs: a renewal never lowers what a snapshot is read as.
use amalgam.Prelude.{
  ◌≡◌, refl, sym, ◌⊎◌, inl, inr, true, false, Option, some, Bool-cases, Option-cases, arith,
}
use amalgam.Prelude.Int.{◌≤ℤ◌}
use amalgam.Prelude.Maps.{distinct}
use amalgam.Prelude.Assoc.{lookup, insert, lookup-insert_self}
use amalgam.Time.Timestamp.{Timestamp}
use amalgam.Tags.Marker.{MarkerKind}
use amalgam.Tags.Scope.{CacheScope}
use amalgam.Tags.Snapshot.{MarkerSnapshot, is_physically_expired, with_maximum, supersedes}
use amalgam.Distributed.Invalidation.Keys.{namespace, namespace_Eq, snapshot_key_Eq}
use amalgam.Distributed.Invalidation.{InvalidationStore, SnapshotKey, read}
use amalgam.Distributed.Invalidation.Snapshots.{
  read_snapshot, snapshot, missing, maximum, stored, kept_newer, retain_live, make_room, outranks,
  renew_live, renew_snapshot_atomic,
}
use amalgam.Distributed.Invalidation.Snapshots.Outcome.{Renews, stores, keeps}
use amalgam.Distributed.Invalidation.Snapshots.Laws.{lookup-retain_live, retain_live-live}
use amalgam.Distributed.Invalidation.Snapshots.Displacement.{retain_live-lookup}
use amalgam.Distributed.Invalidation.Snapshots.Maximum.{
  AtMost, with_maximum-with_maximum, with_maximum_bounds, with_maximum_mono, supersedes-le,
}

-- A read at `now` shows a snapshot that `now` retains, or the marker alone.
read_snapshot_cases :
    (store : InvalidationStore) (scope : CacheScope) (kind : MarkerKind) (now : Timestamp)
    → ((read_snapshot store scope kind now).1 ≡ missing (read store scope kind))
      ⊎ ((c : MarkerSnapshot) × (lookup (namespace scope, kind) (retain_live now store.snapshots)
            ≡ some c)
          × ((read_snapshot store scope kind now).1
              ≡ snapshot (with_maximum c (read store scope kind))))
unfolding read_snapshot
read_snapshot_cases store scope kind now =
    let key : SnapshotKey = (namespace scope, kind) in
    elim (Option-cases (lookup key store.snapshots)) [
      | inl none_there ↦ inl (rw none_there)
      | inr (c, hit) ↦ elim (Bool-cases (is_physically_expired c now)) [
        | inl dead ↦ inl (rw (hit, dead))
        | inr live ↦ inr (c, lookup-retain_live key now store.snapshots c hit live, rw (hit, live))
      ]
    ]

module _ (store : InvalidationStore) (scope : CacheScope) (kind : MarkerKind) (s : MarkerSnapshot)
    (now : Timestamp) where
  abbrev the_key : SnapshotKey
  the_key = (namespace scope, kind)

  abbrev pub at_now : Option MarkerSnapshot
  at_now = lookup the_key (retain_live now store.snapshots)

  abbrev pub raised : MarkerSnapshot → MarkerSnapshot
  raised t = with_maximum t (read store scope kind)

  abbrev pub stored_store : InvalidationStore
  stored_store = record store {
    snapshots =
        insert the_key (raised s)
          (make_room the_key store.max_entries (retain_live now store.snapshots));
  }

  pub renew-stored :
      is_physically_expired s now ≡ false
      → outranks at_now s ≡ false
      → renew_snapshot_atomic store scope kind s now ≡ (stored_store, stored (raised s))
  unfolding renew_snapshot_atomic renew_live
  renew-stored alive h = rw (alive, h)

  renew-kept :
      (c : MarkerSnapshot)
      → is_physically_expired s now ≡ false
      → at_now ≡ some c
      → supersedes c s ≡ true
      → renew_snapshot_atomic store scope kind s now
        ≡ (record store { snapshots = retain_live now store.snapshots }, kept_newer (raised c))
  unfolding renew_snapshot_atomic renew_live
  renew-kept c alive hit h = rw (alive, hit, h)

  stored-shown :
      (later : Timestamp)
      → is_physically_expired (raised s) later ≡ false
      → (read_snapshot stored_store scope kind later).1 ≡ snapshot (raised s)
  unfolding read_snapshot read
  stored-shown later alive = rw (
    lookup-insert_self the_key (raised s)
        (make_room the_key store.max_entries (retain_live now store.snapshots)),
    alive,
    with_maximum-with_maximum s (read store scope kind),
  )

  raised-alive :
      (c : MarkerSnapshot) (at : Timestamp)
      → is_physically_expired (raised c) at ≡ is_physically_expired c at
  unfolding with_maximum is_physically_expired
  raised-alive c at = refl

  kept-shown :
      (c : MarkerSnapshot)
      → at_now ≡ some c
      → (later : Timestamp) → is_physically_expired (raised c) later ≡ false
      → (read_snapshot
          (record store { snapshots = retain_live now store.snapshots })
          scope
          kind
          later).1
        ≡ snapshot (raised c)
  unfolding read_snapshot read
  kept-shown c hit later alive =
      let lives : is_physically_expired c later ≡ false = rw (sym (raised-alive c later)) alive in
      rw (hit, lives)

  shown-AtMost :
      (r : MarkerSnapshot)
      → AtMost (read store scope kind) r.version
      → ((c : MarkerSnapshot) → at_now ≡ some c → (raised c).version ≤ℤ r.version)
      → AtMost (maximum (read_snapshot store scope kind now).1) r.version
  shown-AtMost r durable live = elim (read_snapshot_cases store scope kind now) [
    | inl e ↦ rw e durable
    | inr (c, hit, e) ↦ rw e (live c hit)
  ]

  outranks-none :
      (c : MarkerSnapshot) → outranks at_now s ≡ false → at_now ≡ some c → supersedes c s ≡ false
  outranks-none c h hit = rw hit at h

  renew-stored_Renews :
      is_physically_expired s now ≡ false
      → outranks at_now s ≡ false
      → ((c : MarkerSnapshot) → at_now ≡ some c → c.version ≤ℤ s.version)
      → Renews store scope kind s now
          (renew_snapshot_atomic store scope kind s now).0
          (renew_snapshot_atomic store scope kind s now).1
          (raised s)
  renew-stored_Renews alive h newest = rw (renew-stored alive h) (record {
    told =
        stores refl refl
          (lookup-insert_self the_key (raised s)
            (make_room the_key store.max_entries (retain_live now store.snapshots)))
          (λ c hit lives.
            outranks-none c h (lookup-retain_live the_key now store.snapshots c hit lives));
    alive = rw (raised-alive s now) alive;
    shown = stored-shown;
    no_older = (with_maximum_bounds s (read store scope kind)).0;
    durable = (with_maximum_bounds s (read store scope kind)).1;
    monotone =
        shown-AtMost (raised s) (with_maximum_bounds s (read store scope kind)).1
          (λ c hit. with_maximum_mono c s (read store scope kind) (newest c hit));
  })

  same_found :
      (c d : MarkerSnapshot)
      → at_now ≡ some c
      → at_now ≡ some d
      → c.version ≤ℤ s.version
      → d.version ≤ℤ s.version
  same_found c d hit there le = let e : d ≡ c = ground (arith, hit, there) in rw e le

  renew-kept_Renews :
      (c : MarkerSnapshot)
      → is_physically_expired s now ≡ false
      → at_now ≡ some c
      → supersedes c s ≡ true
      → s.version ≤ℤ c.version
      → distinct store.snapshots ≡ true
      → Renews store scope kind s now
          (renew_snapshot_atomic store scope kind s now).0
          (renew_snapshot_atomic store scope kind s now).1
          (raised c)
  renew-kept_Renews c alive hit newer le d =
      let bounds = with_maximum_bounds c (read store scope kind) in
      rw (renew-kept c alive hit newer) (record {
        told =
            keeps c refl refl (retain_live-lookup the_key now store.snapshots c d hit) hit
              (retain_live-live the_key now store.snapshots c hit) newer;
        alive = rw (raised-alive c now) (retain_live-live the_key now store.snapshots c hit);
        shown = kept-shown c hit;
        no_older = omega (arith, le, bounds.0);
        durable = bounds.1;
        monotone =
            shown-AtMost (raised c) bounds.1
              (λ x there. let e : x ≡ c = ground (arith, hit, there) in rw e (omega arith));
      })

  pub renew-expired :
      is_physically_expired s now ≡ true → (renew_snapshot_atomic store scope kind s now).0 ≡ store
  unfolding renew_snapshot_atomic
  renew-expired dead = rw dead

  pub renew-outranked :
      is_physically_expired s now ≡ false
      → outranks at_now s ≡ true
      → (renew_snapshot_atomic store scope kind s now).0
        ≡ record store { snapshots = retain_live now store.snapshots }
  unfolding renew_snapshot_atomic renew_live
  renew-outranked alive h = rw (alive, h)

  -- A renewal, of a store whose keys are distinct, with a snapshot that is not expired either stores
  -- it, raised to the durable marker, and then no live one superseded it, or keeps the live one that
  -- supersedes it, and reports which; until the reported snapshot expires, a read of the new store
  -- shows it; and its version is at least that of the new snapshot, of the durable marker, and of
  -- what a read showed before.
  pub renew_snapshot_atomic-Renews :
      distinct store.snapshots ≡ true
      → is_physically_expired s now ≡ false
      → (r : MarkerSnapshot) × Renews store scope kind s now
          (renew_snapshot_atomic store scope kind s now).0
          (renew_snapshot_atomic store scope kind s now).1
          r
  renew_snapshot_atomic-Renews d alive = elim (Option-cases at_now) [
    | inl vacant ↦ (
      raised s,
      renew-stored_Renews alive (rw vacant) (λ c hit. absurd (ground (arith, vacant, hit))),
    )
    | inr (c, hit) ↦ elim (supersedes-le c s) [
      | inl (newer, le) ↦ (raised c, renew-kept_Renews c alive hit newer le d)
      | inr (older, le) ↦ (
        raised s,
        renew-stored_Renews alive (rw hit older) (λ x there. same_found c x hit there le),
      )
    ]
  ]
