-- ===== src/Distributed/Invalidation/Snapshots/Displacement.antt =====
-- src/distributed.rs: the snapshot that a full store gives up for a new one.
use amalgam.Prelude.{
  ℕ, ◌≤◌, ◌≡◌, ◌≢◌, refl, inl, inr, ◌⊎◌, true, Option, none, some, [], ◌∷◌, leb, length, Bool-cases,
  Option-cases, arith,
}
use amalgam.Prelude.Int.{◌≤ℤ◌, ltb_ℤ}
use amalgam.Prelude.Maps.{distinct, distinct-remove}
use amalgam.Prelude.Assoc.{lookup, insert, remove, lookup-insert, lookup-remove}
use amalgam.Time.Timestamp.{Timestamp}
use amalgam.Tags.Snapshot.{MarkerSnapshot}
use amalgam.Distributed.Invalidation.Keys.{namespace_Eq, snapshot_key_Eq, key_eq, key_eq_iff}
use amalgam.Distributed.Invalidation.{SnapshotKey}
use amalgam.Distributed.Invalidation.Snapshots.{retain_live, oldest, older, make_room}
use amalgam.Distributed.Invalidation.Snapshots.Laws.{Snapshots, oldest-none}

-- Snapshots of distinct keys stay so while some expire.
retain_live-absent :
    (key : SnapshotKey) (now : Timestamp) (m : Snapshots)
    → lookup key m ≡ none
    → lookup key (retain_live now m) ≡ none
unfolding lookup retain_live
retain_live-absent key now [] h = refl
retain_live-absent key now ((j, t) ∷ m) h = ground (arith, retain_live-absent key now m)

pub distinct-retain_live :
    (now : Timestamp) (m : Snapshots) → distinct m ≡ true → distinct (retain_live now m) ≡ true
unfolding retain_live
distinct-retain_live now [] d = refl
distinct-retain_live now ((j, t) ∷ m) d =
    ground (arith, distinct-retain_live now m, retain_live-absent j now m)

pub retain_live-lookup :
    (key : SnapshotKey) (now : Timestamp) (m : Snapshots) (s : MarkerSnapshot)
    → distinct m ≡ true
    → lookup key (retain_live now m) ≡ some s
    → lookup key m ≡ some s
unfolding lookup retain_live
retain_live-lookup key now [] s d h = h
retain_live-lookup key now ((j, t) ∷ m) s d h =
    ground (arith, key_eq_iff j key, retain_live-absent key now m, retain_live-lookup key now m s)

older_cases :
    (j : SnapshotKey) (t : MarkerSnapshot) (rest : Option (SnapshotKey × MarkerSnapshot))
    (key : SnapshotKey) (s : MarkerSnapshot)
    → older (j, t) rest ≡ some (key, s)
    → ((j ≡ key)
        × (t ≡ s)
        × ((i : SnapshotKey) (v : MarkerSnapshot) → rest ≡ some (i, v) → s.created ≤ℤ v.created))
      ⊎ ((rest ≡ some (key, s)) × (s.created ≤ℤ t.created))
unfolding older
older_cases j t none key s h = inl (cc, cc, λ i v e. cc)
older_cases j t (some (k, w)) key s h = elim (Bool-cases (ltb_ℤ w.created t.created)) [
  | inl lower ↦
      let same : ◌≡◌ {A = Option (SnapshotKey × MarkerSnapshot)} (some (k, w)) (some (key, s)) =
        ground (arith, lower, h) in
      inr (same, ground (arith, lower, same))
  | inr higher ↦
      let same : ◌≡◌ {A = Option (SnapshotKey × MarkerSnapshot)} (some (j, t)) (some (key, s)) =
        ground (arith, higher, h) in
      let is : j ≡ key = cc in
      let equal : t ≡ s = cc in inl (is, equal, λ i v e. ground (arith, higher, same, e))
]

-- The oldest snapshot is there, and none is older.
pub oldest-found :
    (m : Snapshots) (key : SnapshotKey) (s : MarkerSnapshot)
    → distinct m ≡ true
    → oldest m ≡ some (key, s)
    → lookup key m ≡ some s
unfolding oldest lookup
oldest-found [] key s d h = cc
oldest-found ((j, t) ∷ m) key s d h = elim (older_cases j t (oldest m) key s h) [
  | inl (same, is, least) ↦ ground (arith, same, is, key_eq_iff j key)
  | inr (later, le) ↦
      ground (arith, d, key_eq_iff j key, oldest-found m key s (ground (arith, d)) later)
]

oldest-some :
    (m : Snapshots) (j : SnapshotKey) (u : MarkerSnapshot) → lookup j m ≡ some u → oldest m ≢ none
unfolding lookup
oldest-some [] j u e empty = cc
oldest-some (x ∷ m) j u e empty = let z = oldest-none (x ∷ m) empty in ground (arith, z)

pub oldest-least :
    (m : Snapshots) (key : SnapshotKey) (s : MarkerSnapshot) (j : SnapshotKey) (u : MarkerSnapshot)
    → oldest m ≡ some (key, s)
    → lookup j m ≡ some u
    → s.created ≤ℤ u.created
unfolding oldest lookup
oldest-least [] key s j u h e = cc
oldest-least ((i, t) ∷ m) key s j u h e = elim (Bool-cases (key_eq i j)) [
  | inl here ↦
      let is : t ≡ u = ground (arith, here, e) in
      elim (older_cases i t (oldest m) key s h) [
        | inl (same, eq, least) ↦ ground (arith, is, eq)
        | inr (later, le) ↦ ground (arith, is, le)
      ]
  | inr there ↦
      let deeper : lookup j m ≡ some u = ground (arith, there, e) in
      elim (older_cases i t (oldest m) key s h) [
        | inl (same, eq, least) ↦ elim (Option-cases (oldest m)) [
          | inl empty ↦ absurd (oldest-some m j u deeper empty)
          | inr ((k, v), q) ↦
              let x = oldest-least m k v j u q deeper in let y = least k v q in omega arith
        ]
        | inr (later, le) ↦ oldest-least m key s j u later deeper
      ]
]

-- A snapshot at `k` has given way to one under the new key `key`.
pub record Displaced (m after : Snapshots) (limit : ℕ) (key k : SnapshotKey) (t : MarkerSnapshot)
    : Type 0 where
  pub full : limit ≤ length m
  pub vacant : lookup key m ≡ none
  pub none_older :
      (j : SnapshotKey) (u : MarkerSnapshot) → lookup j m ≡ some u → t.created ≤ℤ u.created
  pub others :
      (j : SnapshotKey) (u : MarkerSnapshot) → lookup j m ≡ some u → j ≢ k → lookup j after ≡ some u

pub make_room-keeps :
    (key : SnapshotKey) (limit : ℕ) (m : Snapshots) (s : MarkerSnapshot) (k : SnapshotKey)
    (t : MarkerSnapshot)
    → distinct m ≡ true
    → key ≢ k
    → lookup k m ≡ some t
    → (lookup k (insert key s (make_room key limit m)) ≡ some t)
      ⊎ ((lookup k (insert key s (make_room key limit m)) ≡ none)
          × Displaced m (insert key s (make_room key limit m)) limit key k t)
unfolding make_room
make_room-keeps key limit m s k t d other hit = elim (Option-cases (lookup key m)) [
  | inr (u, there) ↦
      rw there (inl (ground (arith, lookup-insert key k s m, key_eq_iff key k, hit, other)))
  | inl new ↦ elim (Option-cases (oldest m)) [
    | inl empty ↦
        rw (new, empty)
          (inl (ground (arith, lookup-insert key k s m, key_eq_iff key k, hit, other)))
    | inr ((old, v), e) ↦
        let found = oldest-found m old v d e in
        elim (Bool-cases (leb limit (length m))) [
          | inr room ↦
              rw (new, e, room)
                (inl (ground (arith, lookup-insert key k s m, key_eq_iff key k, hit, other)))
          | inl full ↦ elim (Bool-cases (key_eq old k)) [
            | inr spared ↦
                rw (new, e, full)
                  (inl (
                    ground (
                      arith,
                      lookup-insert key k s (remove old m),
                      lookup-remove old k m,
                      key_eq_iff key k,
                      hit,
                      other,
                      spared,
                    )))
            | inl gone ↦
                rw (new, e, full)
                  (inr (
                    ground (
                      arith,
                      lookup-insert key k s (remove old m),
                      lookup-remove old k m,
                      key_eq_iff key k,
                      other,
                      gone,
                    ),
                    record {
                      full = ground (arith, full);
                      vacant = new;
                      none_older = λ j u there.
                          let least = oldest-least m old v j u e there in
                          ground (arith, gone, key_eq_iff old k, hit, found, least);
                      others = λ j u there ne. ground (
                        arith,
                        lookup-insert key j s (remove old m),
                        lookup-remove old j m,
                        key_eq_iff key j,
                        key_eq_iff old j,
                        key_eq_iff old k,
                        gone,
                        there,
                        new,
                        ne,
                      );
                    },
                  ))
          ]
        ]
  ]
]

pub distinct-make_room :
    (key : SnapshotKey) (limit : ℕ) (m : Snapshots)
    → distinct m ≡ true
    → distinct (make_room key limit m) ≡ true
unfolding make_room
distinct-make_room key limit m d = elim (Option-cases (lookup key m)) [
  | inr (u, there) ↦ rw there d
  | inl new ↦ elim (Option-cases (oldest m)) [
    | inl empty ↦ rw (new, empty) d
    | inr ((old, v), e) ↦ rw (new, e) (ground (arith, d, distinct-remove old m))
  ]
]
