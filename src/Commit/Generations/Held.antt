-- ===== src/Commit/Generations/Held.antt =====
-- src/commit.rs: what a task of a lane has drawn, and bounds that outlast the other tasks.
use amalgam.Prelude.{ℕ, ◌≤◌, ◌≡◌, Option, none, some, arith}
use amalgam.Prelude.Int.{◌≤ℤ◌}
use amalgam.Time.Timestamp.{Timestamp}
use amalgam.Commit.Generations.{
  latest, Task, idle, refused, numbered, stamped, advanced, loaded, snapshot,
}

-- The number that the advance of a task has drawn.
abbrev pub drawn : Task → Option ℕ
drawn (numbered at g) = some g
drawn (stamped at g) = some g
drawn (advanced at f) = some f.generation
drawn idle = none
drawn refused = none
drawn (loaded g) = none
drawn (snapshot f) = none

-- A bound on the generation that a task holds, of either kind.
abbrev pub HeldBy : ℕ → Task → Type 0
HeldBy n (numbered at g) = g ≤ n
HeldBy n (stamped at g) = g ≤ n
HeldBy n (advanced at f) = f.generation ≤ n
HeldBy n idle = Unit {0}
HeldBy n refused = Unit {0}
HeldBy n (loaded g) = g ≤ n
HeldBy n (snapshot f) = f.generation ≤ n

abbrev pub EpochOf : ℕ → Task → Type 0
EpochOf n (advanced at f) = f.captured_epoch ≤ n
EpochOf n (snapshot f) = f.captured_epoch ≤ n
EpochOf n _ = Unit {0}

abbrev pub NoLater : Timestamp → Option Timestamp → Type 0
NoLater at none = ⊥
NoLater at (some t) = at ≤ℤ t

-- The stamp of the lane covers the advances that have passed it.
abbrev pub CoveredBy : Option Timestamp → Task → Type 0
CoveredBy t (stamped at g) = NoLater at t
CoveredBy t (advanced at f) = NoLater at t
CoveredBy t _ = Unit {0}

pub HeldBy-mono : (n m : ℕ) (t : Task) → n ≤ m → HeldBy n t → HeldBy m t
HeldBy-mono n m idle h held = tt
HeldBy-mono n m refused h held = tt
HeldBy-mono n m (numbered at g) h held = omega arith
HeldBy-mono n m (stamped at g) h held = omega arith
HeldBy-mono n m (advanced at f) h held = omega arith
HeldBy-mono n m (loaded g) h held = omega arith
HeldBy-mono n m (snapshot f) h held = omega arith

pub EpochOf-mono : (n m : ℕ) (t : Task) → n ≤ m → EpochOf n t → EpochOf m t
EpochOf-mono n m (advanced at f) h held = omega arith
EpochOf-mono n m (snapshot f) h held = omega arith
EpochOf-mono n m _ h held = tt

pub latest-NoLater : (at : Timestamp) (old : Option Timestamp) → NoLater at (some (latest old at))
latest-NoLater at none = omega arith
latest-NoLater at (some old) = ground arith

latest-keeps :
    (at new : Timestamp) (old : Option Timestamp)
    → NoLater at old
    → NoLater at (some (latest old new))
latest-keeps at new none h = elim h [ ]
latest-keeps at new (some old) h = ground arith

pub CoveredBy-latest :
    (old : Option Timestamp) (at : Timestamp) (t : Task)
    → CoveredBy old t
    → CoveredBy (some (latest old at)) t
CoveredBy-latest old at (stamped a g) h = latest-keeps a at old h
CoveredBy-latest old at (advanced a f) h = latest-keeps a at old h
CoveredBy-latest old at _ h = tt

-- A draw is within the generations that were handed out.
pub drawn-le : (n g : ℕ) (t : Task) → HeldBy n t → drawn t ≡ some g → g ≤ n
drawn-le n g (numbered at h) held e = ground arith
drawn-le n g (stamped at h) held e = ground arith
drawn-le n g (advanced at f) held e = ground arith
drawn-le n g idle held e = cc
drawn-le n g refused held e = cc
drawn-le n g (loaded h) held e = cc
drawn-le n g (snapshot f) held e = cc
