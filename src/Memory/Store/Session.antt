-- ===== src/Memory/Store/Session.antt =====
-- src/memory/origin.rs: the store with the origins that are outstanding. A revision is held by the
-- origins that captured it, and by owners outside the store (`alive` of the moment). Each action is
-- one call of the store, the drop of an origin, or the making of a counter outside the store (that of
-- a flight).
use amalgam.Prelude.{ℕ, zero, suc, Bool, Option, none, some, List, [], ◌∷◌, ◌==◌, ◌||◌, any}
use amalgam.Prelude.Text.{Text}
use amalgam.Prelude.Result.{Result, ok, err}
use amalgam.Time.Timestamp.{Timestamp}
use amalgam.Recovery.MarkerWork.{RecoveryError}
use amalgam.Memory.{MemoryWriteEvent, CaptureAdmission, Handle}
use amalgam.Memory.Origins.{RevisionSnapshot, chosen, forget}
use amalgam.Memory.Retention.{Moment, Expected, Retention, get, remove_expired}
use amalgam.Memory.Store.{
  invalidate_origin, capture_revision, skip_revision, apply_write, detach_remove, remove_value,
  invalidate_all,
}

-- `MemoryOrigin`
pub record MemoryOrigin : Type 0 where
  pub key : Text
  pub snapshot : RevisionSnapshot

pub record Session {ℓ} (V : Type ℓ) : Type ℓ where
  pub store : Retention V
  pub outstanding : List MemoryOrigin

pub data Action {ℓ} (V : Type ℓ) : Type ℓ where
  read : Text → Option Timestamp → Action V
  write : Text → Handle V → Timestamp → Expected V → CaptureAdmission → MemoryWriteEvent → Action V
  issue : Action V
  capture : Text → Option ℕ → Action V
  skip : Text → RevisionSnapshot → Action V
  drop : ℕ → Action V
  invalidate : Text → Action V
  detach : Text → Action V
  discard : Text → Option (Handle V) → Action V
  clear : Action V
  expire_all : Option Timestamp → Action V

-- The owners of a revision, the outstanding origins included.
abbrev pub owned : Moment → List MemoryOrigin → ℕ → Bool
owned at origins revision = at.alive revision || any (λ o. o.snapshot.revision == revision) origins

abbrev pub during : Moment → List MemoryOrigin → Moment
during at origins = record at { alive = owned at origins }

abbrev pub origin_at : ℕ → List MemoryOrigin → Option MemoryOrigin
origin_at n [] = none
origin_at zero (o ∷ os) = some o
origin_at (suc n) (o ∷ os) = origin_at n os

abbrev pub without : ℕ → List MemoryOrigin → List MemoryOrigin
without n [] = []
without zero (o ∷ os) = os
without (suc n) (o ∷ os) = o ∷ without n os

abbrev pub captured_by :
    Text → Result RevisionSnapshot RecoveryError → List MemoryOrigin → List MemoryOrigin
captured_by key (ok s) origins = record { key = key; snapshot = s } ∷ origins
captured_by key (err e) origins = origins

module _ {ℓ} {V : Type ℓ} where
  -- `Drop for MemoryOrigin`
  abbrev pub dropped : Retention V → Option MemoryOrigin → Retention V
  dropped r none = r
  dropped r (some o) = record r { origins = forget r.origins o.key o.snapshot.revision }

  unfoldable pub perform : Moment → Action V → Session V → Session V
  unfolding get apply_write capture_revision skip_revision invalidate_origin detach_remove
      remove_value invalidate_all remove_expired
  perform at (read key now) s = record s {
    store = (get (during at s.outstanding) now s.store key).0;
  }
  perform at (write key h now expected admission event) s = record s {
    store = (apply_write (during at s.outstanding) s.store key h now expected admission event).0;
  }
  perform at issue s = record s {
    store = record s.store { origins = (chosen s.store.origins none none).0 };
  }
  perform at (capture key provided) s =
      let (store, result) = capture_revision (during at s.outstanding) s.store key provided in
      record { store = store; outstanding = captured_by key result s.outstanding }
  perform at (skip key snapshot) s = record s {
    store = (skip_revision (during at s.outstanding) s.store key snapshot).0;
  }
  perform at (drop n) s = record {
    store = dropped s.store (origin_at n s.outstanding);
    outstanding = without n s.outstanding;
  }
  perform at (invalidate key) s = record s {
    store = invalidate_origin (during at s.outstanding) s.store key;
  }
  perform at (detach key) s = record s {
    store = (detach_remove (during at s.outstanding) s.store key).0;
  }
  perform at (discard key expected) s = record s { store = (remove_value s.store key expected).0 }
  perform at clear s = record s { store = (invalidate_all s.store).0 }
  perform at (expire_all now) s = record s {
    store = (remove_expired (during at s.outstanding) now s.store).0;
  }

  unfoldable pub run : List (Moment × Action V) → Session V → Session V
  unfolding perform
  run [] s = s
  run ((at, action) ∷ rest) s = run rest (perform at action s)
