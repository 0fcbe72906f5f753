-- ===== src/Memory/Store/Registration.antt =====
-- src/memory/origin.rs: each action keeps the registered revisions in step with the outstanding origins.
use amalgam.Prelude.{
  ℕ, ◌≡◌, refl, Bool, Option, none, some, List, ◌==◌, Bool-cases, Option-cases, inl, inr,
}
use amalgam.Prelude.Assoc.{lookup}
use amalgam.Prelude.Text.{Text, text_Eq}
use amalgam.Time.Timestamp.{Timestamp}
use amalgam.Entry.Envelope.{is_physically_expired}
use amalgam.Recovery.Work.{u64_max}
use amalgam.Memory.{CaptureAdmission, Handle, MemoryWriteEvent}
use amalgam.Memory.Origins.{
  Origins, RevisionSnapshot, capture_from, advance, advance_revision, upgraded, chosen, matches,
}
use amalgam.Memory.Retention.{Moment, Expected, Retention, get, take, remove_expired}
use amalgam.Memory.Retention.Insert.{insert_entry}
use amalgam.Memory.Store.{
  invalidate_origin, capture_revision, skip_revision, apply_write, is_mutation, detach_remove,
  remove_value, invalidate_all, expects,
}
use amalgam.Memory.Store.Session.{
  MemoryOrigin, Session, Action, read, write, issue, capture, skip, drop, invalidate, detach,
  discard, clear, expire_all, perform, owned, during, dropped, origin_at, without,
}
use amalgam.Memory.Store.Growth.{
  Same, take-Same, get-Same, remove_expired-Same, insert_entry-origins,
}
use amalgam.Memory.Store.Registry.{
  IsRegistered, forget-IsRegistered, capture_from-IsRegistered, without-none,
}

advance_revision-active : (o : Origins) (r : Option ℕ) → (advance_revision o r).active ≡ o.active
advance_revision-active o none = refl
advance_revision-active o (some r) = refl

advance-active :
    (alive : ℕ → Bool) (o : Origins) (key : Text) → (advance alive o key).active ≡ o.active
unfolding advance
advance-active alive o key = advance_revision-active o (upgraded alive (lookup key o.active))

chosen-active :
    (o : Origins) (found provided : Option ℕ) → (chosen o found provided).0.active ≡ o.active
chosen-active o (some r) provided = refl
chosen-active o none (some r) = refl
chosen-active o none none = refl

IsRegistered-active :
    (o o' : Origins) (os : List MemoryOrigin)
    → o'.active ≡ o.active
    → IsRegistered o os
    → IsRegistered o' os
unfolding IsRegistered
IsRegistered-active o o' os e i k = rw e (i k)

module _ {ℓ} {V : Type ℓ} where
  -- The registered revisions of a store with its outstanding origins.
  abbrev Registers : Retention V → List MemoryOrigin → Type 0
  Registers r os = IsRegistered r.origins os

  insert_entry-Registers :
      (at : Moment) (r : Retention V) (os : List MemoryOrigin) (key : Text) (h : Handle V)
      (now : Timestamp) (expected : Expected V) (admission : CaptureAdmission)
      (event : MemoryWriteEvent)
      → Registers r os
      → Registers (insert_entry at r key h now expected admission event).0 os
  insert_entry-Registers at r os key h now expected admission event i =
      let t = (insert_entry at r key h now expected admission event).0 in
      elim (insert_entry-origins at r key h now expected admission event).1 [
        | inl e ↦ rw e i
        | inr e ↦ rw e (
            IsRegistered-active r.origins (advance at.alive r.origins key) os
              (advance-active at.alive r.origins key) i)
      ]

  invalidate_origin-Registers :
      (at : Moment) (r : Retention V) (os : List MemoryOrigin) (key : Text)
      → Registers r os
      → Registers (invalidate_origin at r key) os
  unfolding invalidate_origin
  invalidate_origin-Registers at r os key i =
      IsRegistered-active r.origins (advance at.alive r.origins key) os
        (advance-active at.alive r.origins key) i

  apply_write-Registers :
      (at : Moment) (r : Retention V) (os : List MemoryOrigin) (key : Text) (h : Handle V)
      (now : Timestamp) (expected : Expected V) (admission : CaptureAdmission)
      (event : MemoryWriteEvent)
      → Registers r os
      → Registers (apply_write at r key h now expected admission event).0 os
  unfolding apply_write
  apply_write-Registers at r os key h now expected admission event i =
      elim (Bool-cases (is_physically_expired h.entry now)) [
        | inr q ↦ rw q (insert_entry-Registers at r os key h now expected admission event i)
        | inl q ↦ elim (Bool-cases (is_mutation expected)) [
          | inl m ↦ rw (q, m) (invalidate_origin-Registers at r os key i)
          | inr m ↦ rw (q, m) i
        ]
      ]

  Same-Registers :
      (r t : Retention V) (os : List MemoryOrigin) → Same r t → Registers r os → Registers t os
  Same-Registers r t os (o, g) i = rw o i

  capture-Registers :
      (at : Moment) (s : Session V) (key : Text) (provided : Option ℕ)
      → Registers s.store s.outstanding
      → Registers
          (perform at (capture key provided) s).store
          (perform at (capture key provided) s).outstanding
  unfolding perform capture_revision capture_from
  capture-Registers at s key provided i =
      let o = s.store.origins in
      let found = upgraded (owned at s.outstanding) (lookup key o.active) in
      let o' = (chosen o found provided).0 in
      let revision = (chosen o found provided).1 in
      let snapshot : RevisionSnapshot = record {
        revision = revision;
        captured = o'.current revision;
        generation = s.store.generation;
      } in
      elim (Bool-cases (s.store.generation == u64_max)) [
        | inl q ↦ rw q i
        | inr q ↦ elim (Bool-cases (o'.current revision == u64_max)) [
          | inl f ↦
              rw (q, f) (IsRegistered-active o o' s.outstanding (chosen-active o found provided) i)
          | inr f ↦
              rw (q, f) (capture_from-IsRegistered at o s.outstanding key provided snapshot i refl)
        ]
      ]

  drop-Registers :
      (n : ℕ) (r : Retention V) (os : List MemoryOrigin)
      → Registers r os
      → Registers (dropped r (origin_at n os)) (without n os)
  drop-Registers n r os i = elim (Option-cases (origin_at n os)) [
    | inl e ↦ rw (e, without-none n os e) i
    | inr (o, e) ↦ rw e (forget-IsRegistered n r.origins os o e i)
  ]

  pub perform-Registers :
      (at : Moment) (action : Action V) (s : Session V)
      → Registers s.store s.outstanding
      → Registers (perform at action s).store (perform at action s).outstanding
  unfolding perform skip_revision detach_remove remove_value invalidate_all
  perform-Registers at (read key now) s i =
      Same-Registers s.store (get (during at s.outstanding) now s.store key).0 s.outstanding
        (get-Same (during at s.outstanding) now s.store key) i
  perform-Registers at (write key h now expected admission event) s i =
      apply_write-Registers (during at s.outstanding) s.store s.outstanding key h now expected
        admission event i
  perform-Registers at issue s i =
      IsRegistered-active s.store.origins (chosen s.store.origins none none).0 s.outstanding refl i
  perform-Registers at (capture key provided) s i = capture-Registers at s key provided i
  perform-Registers at (skip key snapshot) s i =
      elim (Bool-cases (matches s.store.origins snapshot s.store.generation)) [
        | inl q ↦
            rw q (invalidate_origin-Registers (during at s.outstanding) s.store s.outstanding key i)
        | inr q ↦ rw q i
      ]
  perform-Registers at (drop n) s i = drop-Registers n s.store s.outstanding i
  perform-Registers at (invalidate key) s i =
      invalidate_origin-Registers (during at s.outstanding) s.store s.outstanding key i
  perform-Registers at (detach key) s i =
      let moved = invalidate_origin (during at s.outstanding) s.store key in
      Same-Registers moved (take moved key).0 s.outstanding (take-Same moved key)
        (invalidate_origin-Registers (during at s.outstanding) s.store s.outstanding key i)
  perform-Registers at (discard key expected) s i =
      elim (Bool-cases (expects expected (lookup key s.store.entries))) [
        | inl q ↦
            rw q
              (Same-Registers s.store (take s.store key).0 s.outstanding (take-Same s.store key) i)
        | inr q ↦ rw q i
      ]
  perform-Registers at clear s i = i
  perform-Registers at (expire_all now) s i =
      Same-Registers s.store (remove_expired (during at s.outstanding) now s.store).0 s.outstanding
        (remove_expired-Same (during at s.outstanding) now s.store) i
