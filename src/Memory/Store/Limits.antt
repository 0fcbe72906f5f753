-- ===== src/Memory/Store/Limits.antt =====
-- src/memory.rs: the store stays within its limits in every state that it can reach.
use amalgam.Prelude.{Option, none, some, Bool-cases, ◌==◌, inl, inr}
use amalgam.Prelude.Assoc.{lookup}
use amalgam.Prelude.Text.{Text, text_Eq}
use amalgam.Time.Timestamp.{Timestamp}
use amalgam.Entry.Envelope.{is_physically_expired}
use amalgam.Recovery.Work.{u64_max}
use amalgam.Memory.{CaptureAdmission, Handle, MemoryWriteEvent}
use amalgam.Memory.Origins.{Origins, matches}
use amalgam.Memory.Retention.{Moment, Expected, Retention}
use amalgam.Memory.Retention.Valid.{
  IsValid, new-IsValid, cleared-IsValid, take-IsValid, get-IsValid, remove_expired-IsValid,
}
use amalgam.Memory.Retention.Placement.{insert_entry-IsValid}
use amalgam.Memory.Store.{
  invalidate_origin, capture_revision, skip_revision, apply_write, is_mutation, detach_remove,
  remove_value, invalidate_all, expects,
}
use amalgam.Memory.Store.Session.{
  MemoryOrigin, Session, Action, read, write, issue, capture, skip, drop, invalidate, detach,
  discard, clear, expire_all, perform, dropped, during, origin_at,
}
use amalgam.Memory.Store.Reach.{Reach, start, step}

module _ {ℓ} {V : Type ℓ} where
  moved-IsValid : (r : Retention V) (o : Origins) → IsValid r → IsValid (record r { origins = o })
  moved-IsValid r o v = record {
    counted = record { keyed = v.counted.keyed; weighed = v.counted.weighed };
    bounded = v.bounded;
  }

  apply_write-IsValid :
      (at : Moment) (r : Retention V) (key : Text) (h : Handle V) (now : Timestamp)
      (expected : Expected V) (admission : CaptureAdmission) (event : MemoryWriteEvent)
      → IsValid r
      → IsValid (apply_write at r key h now expected admission event).0
  unfolding apply_write invalidate_origin
  apply_write-IsValid at r key h now expected admission event v =
      elim (Bool-cases (is_physically_expired h.entry now)) [
        | inr q ↦ rw q (insert_entry-IsValid at r key h now expected admission event v)
        | inl q ↦ elim (Bool-cases (is_mutation expected)) [
          | inl m ↦ rw (q, m) (moved-IsValid r (invalidate_origin at r key).origins v)
          | inr m ↦ rw (q, m) v
        ]
      ]

  dropped-IsValid : (r : Retention V) (o : Option MemoryOrigin) → IsValid r → IsValid (dropped r o)
  dropped-IsValid r none v = v
  dropped-IsValid r (some o) v = moved-IsValid r (dropped r (some o)).origins v

  -- Each action keeps the store within its limits.
  perform-IsValid :
      (at : Moment) (action : Action V) (s : Session V)
      → IsValid s.store
      → IsValid (perform at action s).store
  unfolding perform skip_revision detach_remove remove_value invalidate_all invalidate_origin
      capture_revision
  perform-IsValid at (read key now) s v = get-IsValid (during at s.outstanding) now s.store key v
  perform-IsValid at (write key h now expected admission event) s v =
      apply_write-IsValid (during at s.outstanding) s.store key h now expected admission event v
  perform-IsValid at issue s v = moved-IsValid s.store (perform at issue s).store.origins v
  perform-IsValid at (capture key provided) s v =
      elim (Bool-cases (s.store.generation == u64_max)) [
        | inl q ↦ rw q v
        | inr q ↦ rw q (moved-IsValid s.store _ v)
      ]
  perform-IsValid at (skip key snapshot) s v =
      elim (Bool-cases (matches s.store.origins snapshot s.store.generation)) [
        | inl q ↦ rw q (
            moved-IsValid s.store (invalidate_origin (during at s.outstanding) s.store key).origins
              v)
        | inr q ↦ rw q v
      ]
  perform-IsValid at (drop n) s v = dropped-IsValid s.store (origin_at n s.outstanding) v
  perform-IsValid at (invalidate key) s v =
      moved-IsValid s.store (invalidate_origin (during at s.outstanding) s.store key).origins v
  perform-IsValid at (detach key) s v =
      let moved = invalidate_origin (during at s.outstanding) s.store key in
      take-IsValid moved key (moved-IsValid s.store moved.origins v)
  perform-IsValid at (discard key expected) s v =
      elim (Bool-cases (expects expected (lookup key s.store.entries))) [
        | inl q ↦ rw q (take-IsValid s.store key v)
        | inr q ↦ rw q v
      ]
  perform-IsValid at clear s v = cleared-IsValid s.store (perform at clear s).store.generation v
  perform-IsValid at (expire_all now) s v =
      remove_expired-IsValid (during at s.outstanding) now s.store v

  -- In every reachable state, each key is stored once, the counted weight is that of the entries,
  -- and the number of entries and the weight are within the limits.
  pub Reach-IsValid : (s : Session V) → Reach s → IsValid s.store
  Reach-IsValid s (start limits mode) = new-IsValid limits mode
  Reach-IsValid s (step at action s' p reach) =
      perform-IsValid at action s' (Reach-IsValid s' reach)
