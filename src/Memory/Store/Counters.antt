-- ===== src/Memory/Store/Counters.antt =====
-- src/memory/origin.rs: each action raises the counters and the generation, or leaves them.
use amalgam.Prelude.{
  ℕ, ◌≤◌, ◌≡◌, refl, Option, none, some, ◌==◌, arith, Bool-cases, Option-cases, inl, inr,
}
use amalgam.Prelude.Assoc.{lookup}
use amalgam.Prelude.Text.{Text, text_Eq}
use amalgam.Time.Timestamp.{Timestamp}
use amalgam.Entry.Envelope.{is_physically_expired}
use amalgam.Recovery.Work.{u64_max}
use amalgam.Memory.{CaptureAdmission, Handle, MemoryWriteEvent}
use amalgam.Memory.Origins.{capture_from, matches}
use amalgam.Memory.Retention.{Moment, Expected, Retention, take}
use amalgam.Memory.Retention.Insert.{insert_entry}
use amalgam.Memory.Store.{
  invalidate_origin, capture_revision, skip_revision, apply_write, is_mutation, detach_remove,
  remove_value, expects, invalidate_all,
}
use amalgam.Memory.Store.Session.{
  MemoryOrigin, Session, Action, read, write, issue, capture, skip, drop, invalidate, detach,
  discard, clear, expire_all, perform, dropped, during, origin_at,
}
use amalgam.Memory.Store.Growth.{
  IsIssued, Raises, Raises-refl, advance-Raises, chosen-Raises, capture_from-Raises, forget-Raises,
  Same, take-Same, get-Same, remove_expired-Same, insert_entry-origins,
}

module _ {ℓ} {V : Type ℓ} where
  pub record IsTracked (c : ℕ) (r : Retention V) : Type 0 where
    pub counter : IsIssued c r.origins
    pub epoch : r.generation ≤ u64_max

  abbrev pub Grows : ℕ → Retention V → Retention V → Type 0
  Grows c r t =
      IsTracked c t × ((r.origins.current c ≤ t.origins.current c) × (r.generation ≤ t.generation))

  raised-Grows :
      (c : ℕ) (r t : Retention V)
      → IsTracked c r
      → t.generation ≡ r.generation
      → Raises c r.origins t.origins
      → Grows c r t
  raised-Grows c r t i g (j, l) =
      let e = i.epoch in
      (record { counter = j; epoch = omega (arith, e, g) }, (l, omega (arith, g)))

  pub Same-Grows : (c : ℕ) (r t : Retention V) → IsTracked c r → Same r t → Grows c r t
  Same-Grows c r t i (o, g) = raised-Grows c r t i g (rw o (Raises-refl c r.origins i.counter))

  invalidate_origin-Grows :
      (at : Moment) (c : ℕ) (r : Retention V) (key : Text)
      → IsTracked c r
      → Grows c r (invalidate_origin at r key)
  unfolding invalidate_origin
  invalidate_origin-Grows at c r key i =
      raised-Grows c r (invalidate_origin at r key) i refl
        (advance-Raises at.alive c r.origins key i.counter)

  insert_entry-Grows :
      (at : Moment) (c : ℕ) (r : Retention V) (key : Text) (h : Handle V) (now : Timestamp)
      (expected : Expected V) (admission : CaptureAdmission) (event : MemoryWriteEvent)
      → IsTracked c r
      → Grows c r (insert_entry at r key h now expected admission event).0
  insert_entry-Grows at c r key h now expected admission event i =
      let t = (insert_entry at r key h now expected admission event).0 in
      let (g, o) = insert_entry-origins at r key h now expected admission event in
      elim o [
        | inl e ↦ Same-Grows c r t i (e, g)
        | inr e ↦ raised-Grows c r t i g (rw e (advance-Raises at.alive c r.origins key i.counter))
      ]

  apply_write-Grows :
      (at : Moment) (c : ℕ) (r : Retention V) (key : Text) (h : Handle V) (now : Timestamp)
      (expected : Expected V) (admission : CaptureAdmission) (event : MemoryWriteEvent)
      → IsTracked c r
      → Grows c r (apply_write at r key h now expected admission event).0
  unfolding apply_write
  apply_write-Grows at c r key h now expected admission event i =
      elim (Bool-cases (is_physically_expired h.entry now)) [
        | inr q ↦ rw q (insert_entry-Grows at c r key h now expected admission event i)
        | inl q ↦ elim (Bool-cases (is_mutation expected)) [
          | inl m ↦ rw (q, m) (invalidate_origin-Grows at c r key i)
          | inr m ↦ rw (q, m) (Same-Grows c r r i (refl, refl))
        ]
      ]

  capture_revision-Grows :
      (at : Moment) (c : ℕ) (r : Retention V) (key : Text) (provided : Option ℕ)
      → IsTracked c r
      → Grows c r (capture_revision at r key provided).0
  unfolding capture_revision
  capture_revision-Grows at c r key provided i = elim (Bool-cases (r.generation == u64_max)) [
    | inl q ↦ rw q (Same-Grows c r r i (refl, refl))
    | inr q ↦
        let t = record r { origins = (capture_from at.alive r.origins key provided).0 } in
        rw q (
          raised-Grows c r t i refl
            (capture_from-Raises at.alive c r.origins key provided i.counter))
  ]

  dropped-Grows :
      (c : ℕ) (r : Retention V) (o : Option MemoryOrigin) → IsTracked c r → Grows c r (dropped r o)
  dropped-Grows c r none i = Same-Grows c r r i (refl, refl)
  dropped-Grows c r (some o) i =
      raised-Grows c r (dropped r (some o)) i refl
        (forget-Raises c r.origins o.key o.snapshot.revision i.counter)

  pub Grows-trans : (c : ℕ) (r s t : Retention V) → Grows c r s → Grows c s t → Grows c r t
  Grows-trans c r s t (i, (a, b)) (j, (a', b')) = (j, (omega (arith, a, a'), omega (arith, b, b')))

  detach_remove-Grows :
      (at : Moment) (c : ℕ) (r : Retention V) (key : Text)
      → IsTracked c r
      → Grows c r (detach_remove at r key).0
  unfolding detach_remove
  detach_remove-Grows at c r key i =
      let moved = invalidate_origin at r key in
      let g = invalidate_origin-Grows at c r key i in
      Grows-trans c r moved (take moved key).0 g
        (Same-Grows c moved (take moved key).0 g.0 (take-Same moved key))

  remove_value-Grows :
      (c : ℕ) (r : Retention V) (key : Text) (expected : Option (Handle V))
      → IsTracked c r
      → Grows c r (remove_value r key expected).0
  unfolding remove_value
  remove_value-Grows c r key expected i =
      elim (Bool-cases (expects expected (lookup key r.entries))) [
        | inl q ↦ rw q (Same-Grows c r (take r key).0 i (take-Same r key))
        | inr q ↦ rw q (Same-Grows c r r i (refl, refl))
      ]

  pub perform-Grows :
      (at : Moment) (action : Action V) (c : ℕ) (s : Session V)
      → IsTracked c s.store
      → Grows c s.store (perform at action s).store
  unfolding perform skip_revision detach_remove remove_value invalidate_all
  perform-Grows at (read key now) c s i =
      Same-Grows c s.store _ i (get-Same (during at s.outstanding) now s.store key)
  perform-Grows at (write key h now expected admission event) c s i =
      apply_write-Grows (during at s.outstanding) c s.store key h now expected admission event i
  perform-Grows at issue c s i =
      raised-Grows c s.store _ i refl (chosen-Raises c s.store.origins none none i.counter)
  perform-Grows at (capture key provided) c s i =
      capture_revision-Grows (during at s.outstanding) c s.store key provided i
  perform-Grows at (skip key snapshot) c s i =
      elim (Bool-cases (matches s.store.origins snapshot s.store.generation)) [
        | inl q ↦ rw q (invalidate_origin-Grows (during at s.outstanding) c s.store key i)
        | inr q ↦ rw q (Same-Grows c s.store s.store i (refl, refl))
      ]
  perform-Grows at (drop n) c s i = dropped-Grows c s.store (origin_at n s.outstanding) i
  perform-Grows at (invalidate key) c s i =
      invalidate_origin-Grows (during at s.outstanding) c s.store key i
  perform-Grows at (detach key) c s i =
      detach_remove-Grows (during at s.outstanding) c s.store key i
  perform-Grows at (discard key expected) c s i = remove_value-Grows c s.store key expected i
  perform-Grows at clear c s i =
      let e = i.epoch in
      (record { counter = i.counter; epoch = ground arith }, (ground arith, ground arith))
  perform-Grows at (expire_all now) c s i =
      Same-Grows c s.store _ i (remove_expired-Same (during at s.outstanding) now s.store)

  -- The generation stays a machine word.
  pub perform-epoch :
      (at : Moment) (action : Action V) (s : Session V)
      → s.store.generation ≤ u64_max
      → (perform at action s).store.generation ≤ u64_max
  unfolding perform skip_revision detach_remove remove_value invalidate_all invalidate_origin
      capture_revision apply_write
  perform-epoch at (read key now) s e = rw (get-Same (during at s.outstanding) now s.store key).1 e
  perform-epoch at (write key h now expected admission event) s e =
      let i =
        insert_entry-origins (during at s.outstanding) s.store key h now expected admission event in
      elim (Bool-cases (is_physically_expired h.entry now)) [
        | inr q ↦ rw (q, i.0) e
        | inl q ↦ elim (Bool-cases (is_mutation expected)) [
          | inl m ↦ rw (q, m) e
          | inr m ↦ rw (q, m) e
        ]
      ]
  perform-epoch at issue s e = e
  perform-epoch at (capture key provided) s e = elim (Bool-cases (s.store.generation == u64_max)) [
    | inl q ↦ rw q e
    | inr q ↦ rw q e
  ]
  perform-epoch at (skip key snapshot) s e =
      elim (Bool-cases (matches s.store.origins snapshot s.store.generation)) [
        | inl q ↦ rw q e
        | inr q ↦ rw q e
      ]
  perform-epoch at (drop n) s e = elim (Option-cases (origin_at n s.outstanding)) [
    | inl q ↦ rw q e
    | inr (o, q) ↦ rw q e
  ]
  perform-epoch at (invalidate key) s e = e
  perform-epoch at (detach key) s e =
      rw (take-Same (invalidate_origin (during at s.outstanding) s.store key) key).1 e
  perform-epoch at (discard key expected) s e =
      elim (Bool-cases (expects expected (lookup key s.store.entries))) [
        | inl q ↦ rw q (rw (take-Same s.store key).1 e)
        | inr q ↦ rw q e
      ]
  perform-epoch at clear s e = ground arith
  perform-epoch at (expire_all now) s e =
      rw (remove_expired-Same (during at s.outstanding) now s.store).1 e
