-- ===== src/Commit/Generations/Invariant.antt =====
-- src/commit.rs: counters only grow, draws are distinct, and the stamp covers what has been drawn.
use amalgam.Prelude.{ℕ, ◌+◌, ◌≤◌, ◌≡◌, inl, inr, some, ◌==◌, update, ltb, Bool-cases, arith}
use amalgam.Time.Timestamp.{Timestamp}
use amalgam.Recovery.Work.{u64_max}
use amalgam.Commit.Generations.{
  Shared, advance_revision, stamp, Task, idle, refused, numbered, stamped, advanced, loaded,
  snapshot, System, start, numbers, fence_at, moves, Step, advances, stamps, fences, loads,
  captures, drops, gaps, next_epoch, Run, here, next,
}
use amalgam.Commit.Generations.Held.{
  drawn, HeldBy, EpochOf, CoveredBy, HeldBy-mono, EpochOf-mono, latest-NoLater, CoveredBy-latest,
  drawn-le,
}

pub record Inv (s : System) : Type 0 where
  pub held : (i : ℕ) → HeldBy s.shared.generation (s.task i)
  pub epochs : (i : ℕ) → EpochOf s.shared.epoch (s.task i)
  pub covered : (i : ℕ) → CoveredBy s.shared.timestamp (s.task i)
  pub distinct : (i j g : ℕ) → drawn (s.task i) ≡ some g → drawn (s.task j) ≡ some g → i ≡ j

-- What never falls.
pub record Grows (s t : Shared) : Type 0 where
  pub generation_grows : s.generation ≤ t.generation
  pub epoch_grows : s.epoch ≤ t.epoch

pub Step-Grows : {s t : System} → Step s t → Grows s.shared t.shared
unfolding advance_revision stamp
Step-Grows (advances i at e q) = ground arith
Step-Grows (stamps i at g e q) = ground arith
Step-Grows (fences i at g e q) = ground arith
Step-Grows (loads i e q) = ground arith
Step-Grows (captures i g e q) = ground arith
Step-Grows (drops i q) = ground arith
Step-Grows (gaps q) = ground arith

pub Run-Grows : {s t : System} → Run s t → Grows s.shared t.shared
Run-Grows here = omega arith
Run-Grows (next r st) = ground (arith, Run-Grows r, Step-Grows st)

update-All :
    (P : Task → Type 0) (f : ℕ → Task) (i : ℕ) (a : Task)
    → ((j : ℕ) → P (f j))
    → P a
    → (j : ℕ) → P (update f i a j)
update-All P f i a all new j = elim (Bool-cases (i == j)) [
  | inl e ↦ rw e new
  | inr e ↦ rw e (all j)
]

abbrev Distinct : (ℕ → Task) → Type 0
Distinct f = (i j g : ℕ) → drawn (f i) ≡ some g → drawn (f j) ≡ some g → i ≡ j

-- A task that moves keeps the draws distinct if nobody else has its draw.
update-Distinct :
    (f : ℕ → Task) (i : ℕ) (a : Task)
    → Distinct f
    → ((j g : ℕ) → drawn a ≡ some g → drawn (f j) ≡ some g → i ≡ j)
    → Distinct (update f i a)
update-Distinct f i a old new j k g p q = elim (Bool-cases (i == j)) [
  | inl ej ↦ elim (Bool-cases (i == k)) [
    | inl ek ↦ ground (arith, ej, ek)
    | inr nk ↦ ground (arith, ej, new k g (rw ej at p) (rw nk at q))
  ]
  | inr nj ↦ elim (Bool-cases (i == k)) [
    | inl ek ↦ ground (arith, ek, new j g (rw ek at q) (rw nj at p))
    | inr nk ↦ old j k g (rw nj at p) (rw nk at q)
  ]
]

moves-Inv :
    (s : System) (i : ℕ) (after : Shared) (a : Task)
    → Inv s
    → Grows s.shared after
    → ((j : ℕ) → CoveredBy after.timestamp (s.task j))
    → HeldBy after.generation a
    → EpochOf after.epoch a
    → CoveredBy after.timestamp a
    → ((j g : ℕ) → drawn a ≡ some g → drawn (s.task j) ≡ some g → i ≡ j)
    → Inv (moves s i after a)
moves-Inv s i after a v grows covered held epochs stamped_now new = record {
  held =
      update-All (HeldBy after.generation) s.task i a
        (λ j.
          HeldBy-mono s.shared.generation after.generation (s.task j) grows.generation_grows
            (v.held j))
        held;
  epochs =
      update-All (EpochOf after.epoch) s.task i a
        (λ j. EpochOf-mono s.shared.epoch after.epoch (s.task j) grows.epoch_grows (v.epochs j))
        epochs;
  covered = update-All (CoveredBy after.timestamp) s.task i a covered stamped_now;
  distinct = update-Distinct s.task i a v.distinct new;
}

same : (s : Shared) → Grows s s
same s = omega arith

advanced-Inv :
    (s : System) (i : ℕ) (at : Timestamp)
    → Inv s
    → Inv (moves s i (advance_revision s.shared).0 (numbers at (advance_revision s.shared).1))
unfolding advance_revision
advanced-Inv s i at v = elim (Bool-cases (ltb s.shared.generation u64_max)) [
  | inl room ↦ rw room (
      moves-Inv s i (record (s.shared) { generation = s.shared.generation + 1 })
        (numbered at (s.shared.generation + 1)) v (omega arith) v.covered (omega arith) tt tt
        (λ j g e d.
          absurd (ground (arith, drawn-le s.shared.generation g (s.task j) (v.held j) d))))
  | inr full ↦
      rw full (moves-Inv s i s.shared refused v (same s.shared) v.covered tt tt tt (λ j g e d. cc))
]

Step-Inv : {s t : System} → Step s t → Inv s → Inv t
unfolding stamp
Step-Inv {s} (advances i at e q) v = rw q (advanced-Inv s i at v)
Step-Inv {s} (stamps i at g e q) v = rw q (
    moves-Inv s i (stamp s.shared at) (stamped at g) v (omega arith)
      (λ j. CoveredBy-latest s.shared.timestamp at (s.task j) (v.covered j)) (rw e at (v.held i)) tt
      (latest-NoLater at s.shared.timestamp) (λ j h d d'. v.distinct i j h (rw e d) d'))
Step-Inv {s} (fences i at g e q) v = rw q (
    moves-Inv s i s.shared (advanced at (fence_at s.shared g)) v (same s.shared) v.covered
      (rw e at (v.held i)) (omega arith) (rw e at (v.covered i))
      (λ j h d d'. v.distinct i j h (rw e d) d'))
Step-Inv {s} (loads i e q) v = rw q (
    moves-Inv s i s.shared (loaded s.shared.generation) v (same s.shared) v.covered (omega arith) tt
      tt (λ j g d d'. cc))
Step-Inv {s} (captures i g e q) v = rw q (
    moves-Inv s i s.shared (snapshot (fence_at s.shared g)) v (same s.shared) v.covered
      (rw e at (v.held i)) (omega arith) tt (λ j h d d'. cc))
Step-Inv {s} (drops i q) v =
    rw q (moves-Inv s i s.shared idle v (same s.shared) v.covered tt tt tt (λ j g d d'. cc))
Step-Inv {s} (gaps q) v = rw q (record {
  held = v.held;
  epochs = λ j.
      EpochOf-mono s.shared.epoch (next_epoch s.shared).epoch (s.task j) (ground arith)
        (v.epochs j);
  covered = v.covered;
  distinct = v.distinct;
})

pub start-Inv : (epoch : ℕ) → Inv (start epoch)
start-Inv epoch = record {
  held = λ i. tt;
  epochs = λ i. tt;
  covered = λ i. tt;
  distinct = λ i j g p q. cc;
}

pub Run-Inv : {s t : System} → Inv s → Run s t → Inv t
Run-Inv v here = v
Run-Inv v (next r st) = Step-Inv st (Run-Inv v r)
