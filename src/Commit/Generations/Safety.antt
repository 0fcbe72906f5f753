-- ===== src/Commit/Generations/Safety.antt =====
-- src/commit.rs: a fence is overtaken once and for all.
use amalgam.Prelude.{ℕ, ◌≤◌, ◌≡◌, true, false, Option, none, some, arith}
use amalgam.Time.Timestamp.{Timestamp}
use amalgam.Prelude.Result.{ok}
use amalgam.Commit.Generations.{
  Fence, advance_revision, is_current, passive_is_current, Task, idle, refused, numbered, stamped,
  advanced, loaded, snapshot, System, start, Run,
}
use amalgam.Commit.Generations.Held.{HeldBy, EpochOf, NoLater}
use amalgam.Commit.Generations.Held.{HeldBy, EpochOf, NoLater}
use amalgam.Commit.Generations.Invariant.{Run-Grows, Run-Inv, start-Inv}

-- The fence that a task holds, as a mutation or as a reader.
abbrev pub fence_of : Task → Option Fence
fence_of (advanced at f) = some f
fence_of (snapshot f) = some f
fence_of idle = none
fence_of refused = none
fence_of (numbered at g) = none
fence_of (stamped at g) = none
fence_of (loaded g) = none

fence-bounded :
    (n m : ℕ) (t : Task) (f : Fence)
    → HeldBy n t
    → EpochOf m t
    → fence_of t ≡ some f
    → (f.generation ≤ n) × (f.captured_epoch ≤ m)
fence-bounded n m (advanced at g) f held epoch e = ground arith
fence-bounded n m (snapshot g) f held epoch e = ground arith
fence-bounded n m idle f held epoch e = cc
fence-bounded n m refused f held epoch e = cc
fence-bounded n m (numbered at g) f held epoch e = cc
fence-bounded n m (stamped at g) f held epoch e = cc
fence-bounded n m (loaded g) f held epoch e = cc

-- In every reachable state of a lane, whatever the interleaving of advances, snapshots and gaps of
-- the backplane, two mutations whose fences are both current are the same, and the timestamp of the
-- lane is no older than the instant of that mutation.
pub one_current :
    {epoch : ℕ} {s : System} (i j : ℕ) (at at' : Timestamp) (f f' : Fence)
    → Run (start epoch) s
    → s.task i ≡ advanced at f
    → s.task j ≡ advanced at' f'
    → is_current s.shared f ≡ true
    → is_current s.shared f' ≡ true
    → (i ≡ j) × NoLater at s.shared.timestamp
unfolding is_current
one_current {epoch} {s} i j at at' f f' r e e' c c' =
    let v = Run-Inv (start-Inv epoch) r in
    let same : f'.generation ≡ f.generation = ground (arith, c, c') in
    (v.distinct i j f.generation (rw e) (rw (e', same)), rw e at (v.covered i))

module _ {epoch : ℕ} {s t : System} (i : ℕ) (f : Fence) (before : Run (start epoch) s)
    (after : Run s t) (holds : fence_of (s.task i) ≡ some f) where
  bounds : (f.generation ≤ s.shared.generation) × (f.captured_epoch ≤ s.shared.epoch)
  bounds =
      let v = Run-Inv (start-Inv epoch) before in
      fence-bounded s.shared.generation s.shared.epoch (s.task i) f (v.held i) (v.epochs i) holds

  -- A fence that is no longer current never is again.
  pub overtaken : is_current s.shared f ≡ false → is_current t.shared f ≡ false
  unfolding is_current
  overtaken stale = ground (arith, bounds, Run-Grows after, stale)

  -- If a fence that a mutation or a reader holds in a reachable state is passively current in a
  -- later one, it was so before, and neither the generation of the lane nor the epoch of the cache
  -- has moved in between.
  pub passive_is_current-Quiet :
      passive_is_current t.shared f ≡ true
      → (passive_is_current s.shared f ≡ true)
        × (t.shared.generation ≡ s.shared.generation)
        × (t.shared.epoch ≡ s.shared.epoch)
  unfolding passive_is_current is_current
  passive_is_current-Quiet current = (
    ground (arith, bounds, Run-Grows after),
    ground (arith, bounds, Run-Grows after),
    ground (arith, bounds, Run-Grows after),
  )

  -- An advance that succeeds in a reachable state leaves no fence current that was held there or in
  -- an earlier state.
  pub advance_revision-overtakes :
      (g : ℕ)
      → (advance_revision t.shared).1 ≡ ok g
      → is_current (advance_revision t.shared).0 f ≡ false
  unfolding advance_revision is_current
  advance_revision-overtakes g drew = ground (arith, bounds, Run-Grows after)
