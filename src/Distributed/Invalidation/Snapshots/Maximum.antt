-- ===== src/Distributed/Invalidation/Snapshots/Maximum.antt =====
-- src/marker_snapshots.rs: a snapshot raised to the maximum of its marker.
use amalgam.Prelude.{◌≡◌, refl, ◌⊎◌, inl, inr, true, false, Option, none, some, Bool-cases, arith}
use amalgam.Prelude.Int.{◌≤ℤ◌}
use amalgam.Tags.Marker.{MarkerVersion}
use amalgam.Tags.Snapshot.{MarkerSnapshot, with_maximum, supersedes}

pub with_maximum-with_maximum :
    (s : MarkerSnapshot) (at : Option MarkerVersion)
    → with_maximum (with_maximum s at) at ≡ with_maximum s at
unfolding with_maximum
with_maximum-with_maximum s none = refl
with_maximum-with_maximum s (some v) = ground arith

abbrev pub AtMost : Option MarkerVersion → MarkerVersion → Type 0
AtMost none v = Unit {0}
AtMost (some w) v = w ≤ℤ v

pub with_maximum_bounds :
    (s : MarkerSnapshot) (at : Option MarkerVersion)
    → (s.version ≤ℤ (with_maximum s at).version) × AtMost at (with_maximum s at).version
unfolding with_maximum
with_maximum_bounds s none = (omega arith, tt)
with_maximum_bounds s (some v) = (ground arith, ground arith)

pub with_maximum_mono :
    (c s : MarkerSnapshot) (at : Option MarkerVersion)
    → c.version ≤ℤ s.version
    → (with_maximum c at).version ≤ℤ (with_maximum s at).version
unfolding with_maximum
with_maximum_mono c s none h = h
with_maximum_mono c s (some v) h = ground arith

pub supersedes-le :
    (c s : MarkerSnapshot)
    → ((supersedes c s ≡ true) × (s.version ≤ℤ c.version))
      ⊎ ((supersedes c s ≡ false) × (c.version ≤ℤ s.version))
supersedes-le c s = elim (Bool-cases (supersedes c s)) [
  | inl newer ↦ inl (newer, ground (arith, newer))
  | inr older ↦ inr (older, ground (arith, older))
]
