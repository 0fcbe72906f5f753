-- ===== src/Distributed/Invalidation/Snapshots/Room.antt =====
-- src/distributed.rs: a renewal that finds the store full gives up the oldest snapshot.
use amalgam.Prelude.{
  ◌≤◌, ◌<◌, ◌≡◌, ◌≢◌, inl, inr, ◌⊎◌, true, false, none, some, length, Bool-cases, arith,
}
use amalgam.Prelude.Int.{◌≤ℤ◌}
use amalgam.Prelude.Maps.{distinct, distinct-insert}
use amalgam.Prelude.Assoc.{lookup}
use amalgam.Time.Timestamp.{Timestamp}
use amalgam.Tags.Marker.{MarkerKind}
use amalgam.Tags.Scope.{CacheScope}
use amalgam.Tags.Snapshot.{MarkerSnapshot, is_physically_expired}
use amalgam.Distributed.Invalidation.Keys.{namespace, namespace_Eq, snapshot_key_Eq}
use amalgam.Distributed.Invalidation.{InvalidationStore, SnapshotKey}
use amalgam.Distributed.Invalidation.Snapshots.{
  retain_live, make_room, outranks, renew_snapshot_atomic,
}
use amalgam.Distributed.Invalidation.Snapshots.Laws.{
  Snapshots, lookup-retain_live, length-retain_live, make_room-fits,
}
use amalgam.Distributed.Invalidation.Snapshots.Displacement.{
  distinct-retain_live, distinct-make_room, make_room-keeps,
}
use amalgam.Distributed.Invalidation.Snapshots.Renewal.{
  at_now, raised, stored_store, renew-stored, renew-expired, renew-outranked,
}

-- What another snapshot, alive at `now`, is given up for: the store is full, the new key held no
-- live snapshot, none alive is older, and all others stay.
pub record GivesUp (before after : InvalidationStore) (now : Timestamp) (key k : SnapshotKey)
    (t : MarkerSnapshot) : Type 0 where
  pub full : before.max_entries ≤ length (retain_live now before.snapshots)
  pub vacant :
      (u : MarkerSnapshot)
      → lookup key before.snapshots ≡ some u
      → is_physically_expired u now ≡ true
  pub none_older :
      (j : SnapshotKey) (u : MarkerSnapshot)
      → lookup j before.snapshots ≡ some u
      → is_physically_expired u now ≡ false
      → t.created ≤ℤ u.created
  pub others :
      (j : SnapshotKey) (u : MarkerSnapshot)
      → lookup j before.snapshots ≡ some u
      → is_physically_expired u now ≡ false
      → j ≢ k
      → lookup j after.snapshots ≡ some u

-- What becomes of the snapshots under other keys that are alive at `now`.
abbrev pub KeepsOthers : InvalidationStore → InvalidationStore → Timestamp → SnapshotKey → Type 0
KeepsOthers before after now key =
    (k : SnapshotKey) (t : MarkerSnapshot)
    → key ≢ k
    → lookup k before.snapshots ≡ some t
    → is_physically_expired t now ≡ false
    → (lookup k after.snapshots ≡ some t)
      ⊎ ((lookup k after.snapshots ≡ none) × GivesUp before after now key k t)

pub record HasRoom (before after : InvalidationStore) (now : Timestamp) (key : SnapshotKey)
    : Type 0 where
  pub bounded : length after.snapshots ≤ before.max_entries
  pub keys : distinct after.snapshots ≡ true
  pub kept : KeepsOthers before after now key

module _ (store : InvalidationStore) (scope : CacheScope) (kind : MarkerKind) (s : MarkerSnapshot)
    (now : Timestamp) where
  abbrev live : Snapshots
  live = retain_live now store.snapshots

  abbrev its_key : SnapshotKey
  its_key = (namespace scope, kind)

  dead-vacant :
      lookup its_key live ≡ none
      → (u : MarkerSnapshot) → lookup its_key store.snapshots ≡ some u
      → is_physically_expired u now ≡ true
  dead-vacant h u hit = elim (Bool-cases (is_physically_expired u now)) [
    | inl e ↦ e
    | inr e ↦
        let found = lookup-retain_live its_key now store.snapshots u hit e in
        absurd (ground (arith, found, h))
  ]

  stored-kept :
      distinct store.snapshots ≡ true
      → KeepsOthers store (stored_store store scope kind s now) now its_key
  stored-kept d k t other hit alive =
      let found = lookup-retain_live k now store.snapshots t hit alive in
      elim (make_room-keeps its_key store.max_entries live (raised store scope kind s now s) k t
        (distinct-retain_live now store.snapshots d) other found) [
          | inl same ↦ inl same
          | inr (gone, p) ↦ inr (
            gone,
            record {
              full = p.full;
              vacant = dead-vacant p.vacant;
              none_older = λ j u there lives.
                  p.none_older j u (lookup-retain_live j now store.snapshots u there lives);
              others = λ j u there lives.
                  p.others j u (lookup-retain_live j now store.snapshots u there lives);
            },
          )
        ]

  -- A store of snapshots with distinct keys and a positive limit that is within it stays so when a
  -- snapshot is renewed; a live snapshot under another key stays, unless the store is full and holds
  -- no live snapshot under the renewed key, none that is alive is older, and no other one is given
  -- up.
  pub renew_snapshot_atomic-HasRoom :
      0 < store.max_entries
      → length store.snapshots ≤ store.max_entries
      → distinct store.snapshots ≡ true
      → HasRoom store (renew_snapshot_atomic store scope kind s now).0 now (namespace scope, kind)
  renew_snapshot_atomic-HasRoom h fits d =
      let kept = length-retain_live now store.snapshots in
      elim (Bool-cases (is_physically_expired s now)) [
        | inl dead ↦
            rw (renew-expired store scope kind s now dead)
              (record { bounded = fits; keys = d; kept = λ k t other hit alive. inl hit })
        | inr alive ↦ elim (Bool-cases (outranks (at_now store scope kind s now) s)) [
          | inl higher ↦ rw (renew-outranked store scope kind s now alive higher) (record {
            bounded = omega (arith, kept);
            keys = distinct-retain_live now store.snapshots d;
            kept =
                λ k t other hit lives. inl (lookup-retain_live k now store.snapshots t hit lives);
          })
          | inr free ↦ rw (renew-stored store scope kind s now alive free) (record {
            bounded =
                make_room-fits its_key store.max_entries live (raised store scope kind s now s) h
                  (omega (arith, kept));
            keys =
                distinct-insert its_key (raised store scope kind s now s)
                  (make_room its_key store.max_entries live)
                  (distinct-make_room its_key store.max_entries live
                    (distinct-retain_live now store.snapshots d));
            kept = stored-kept d;
          })
        ]
      ]
