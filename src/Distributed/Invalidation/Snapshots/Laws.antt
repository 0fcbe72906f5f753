-- ===== src/Distributed/Invalidation/Snapshots/Laws.antt =====
-- src/distributed.rs: what the in-memory invalidation store never forgets.
use amalgam.Prelude.{
  ℕ, ◌≤◌, ◌<◌, ◌≡◌, ◌≢◌, refl, inl, inr, false, Option, none, some, List, [], ◌∷◌, leb, length,
  Bool-cases, Option-cases, arith,
}
use amalgam.Prelude.Assoc.{
  lookup, insert, remove, length-insert-le, length-insert, length-remove_hit,
}
use amalgam.Time.Timestamp.{Timestamp}
use amalgam.Tags.Snapshot.{MarkerSnapshot, is_physically_expired}
use amalgam.Distributed.Invalidation.Keys.{namespace_Eq, snapshot_key_Eq, key_eq, key_eq_iff}
use amalgam.Distributed.Invalidation.{SnapshotKey}
use amalgam.Distributed.Invalidation.Snapshots.{retain_live, oldest, older, make_room}

abbrev pub Snapshots : Type 0
Snapshots = List (SnapshotKey × MarkerSnapshot)

pub lookup-retain_live :
    (key : SnapshotKey) (now : Timestamp) (m : Snapshots) (s : MarkerSnapshot)
    → lookup key m ≡ some s
    → is_physically_expired s now ≡ false
    → lookup key (retain_live now m) ≡ some s
unfolding lookup retain_live
lookup-retain_live key now [] s h live = cc
lookup-retain_live key now ((j, t) ∷ m) s h live = elim (Bool-cases (key_eq j key)) [
  | inl same ↦ ground (arith, same)
  | inr other ↦ ground (arith, other, lookup-retain_live key now m s)
]

pub retain_live-live :
    (key : SnapshotKey) (now : Timestamp) (m : Snapshots) (s : MarkerSnapshot)
    → lookup key (retain_live now m) ≡ some s
    → is_physically_expired s now ≡ false
unfolding lookup retain_live
retain_live-live key now [] s h = cc
retain_live-live key now ((j, t) ∷ m) s h = elim (Bool-cases (is_physically_expired t now)) [
  | inl dead ↦ retain_live-live key now m s (rw dead at h)
  | inr live ↦ elim (Bool-cases (key_eq j key)) [
    | inl same ↦ ground (arith, same, live)
    | inr other ↦ ground (arith, other, live, retain_live-live key now m s)
  ]
]

pub length-retain_live : (now : Timestamp) (m : Snapshots) → length (retain_live now m) ≤ length m
unfolding retain_live
length-retain_live now [] = omega arith
length-retain_live now ((j, t) ∷ m) = ground (arith, length-retain_live now m)

-- What is older than the head of a list, of another key, is the oldest of the rest.
pub older-than :
    (j : SnapshotKey) (t : MarkerSnapshot) (key : SnapshotKey) (s : MarkerSnapshot)
    (rest : Option (SnapshotKey × MarkerSnapshot))
    → key_eq j key ≡ false
    → older (j, t) rest ≡ some (key, s)
    → rest ≡ some (key, s)
unfolding older
older-than j t key s none other h = absurd (ground (arith, key_eq_iff j key))
older-than j t key s (some (k, u)) other h = ground (arith, key_eq_iff j key)

oldest-lookup :
    (m : Snapshots) (key : SnapshotKey) (s : MarkerSnapshot)
    → oldest m ≡ some (key, s)
    → (t : MarkerSnapshot) × (lookup key m ≡ some t)
unfolding oldest lookup
oldest-lookup [] key s h = cc
oldest-lookup ((j, t) ∷ m) key s h = elim (Bool-cases (key_eq j key)) [
  | inl same ↦ (t, rw same)
  | inr other ↦
      let (u, hit) = oldest-lookup m key s (older-than j t key s (oldest m) other h) in
      (u, rw other hit)
]

older-ne-none :
    (entry : SnapshotKey × MarkerSnapshot) (rest : Option (SnapshotKey × MarkerSnapshot))
    → older entry rest ≢ none
unfolding older
older-ne-none (key, s) none h = cc
older-ne-none (key, s) (some (other, t)) h = ground arith

pub oldest-none : (m : Snapshots) → oldest m ≡ none → length m ≡ 0
unfolding oldest older
oldest-none [] h = refl
oldest-none (entry ∷ m) h = absurd (older-ne-none entry (oldest m) h)

pub make_room-fits :
    (key : SnapshotKey) (limit : ℕ) (m : Snapshots) (s : MarkerSnapshot)
    → 0 < limit
    → length m ≤ limit
    → length (insert key s (make_room key limit m)) ≤ limit
unfolding make_room
make_room-fits key limit m s h fits = elim (Option-cases (lookup key m)) [
  | inl new ↦ elim (Option-cases (oldest m)) [
    | inl empty ↦ rw (new, empty) (omega (arith, length-insert-le key s m, oldest-none m empty))
    | inr ((old, t), e) ↦
        let (u, hit) = oldest-lookup m old t e in
        elim (Bool-cases (leb limit (length m))) [
          | inl full ↦
              rw (new, e, full)
                (omega
                  (arith, length-insert-le key s (remove old m), length-remove_hit old m u hit))
          | inr room ↦ rw (new, e, room) (ground (arith, room, length-insert-le key s m))
        ]
  ]
  | inr (t, hit) ↦ rw hit (ground (arith, length-insert key s m, hit))
]
