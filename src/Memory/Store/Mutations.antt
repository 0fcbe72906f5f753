-- ===== src/Memory/Store/Mutations.antt =====
-- src/memory.rs: the actions of a session that move the revision of a key, or the generation.
use amalgam.Prelude.{◌≡◌, refl, sym, Bool, true, false, not, ◌&&◌, arith, Bool-cases, ◌⊎◌, inl, inr}
use amalgam.Prelude.Assoc.{lookup}
use amalgam.Prelude.Text.{Text, text_eq, text_eq_iff, text_Eq}
use amalgam.Time.Timestamp.{Timestamp}
use amalgam.Entry.Envelope.{is_physically_expired}
use amalgam.Memory.{CaptureAdmission, Handle, MemoryWriteEvent, fits}
use amalgam.Memory.Origins.{advance, bumped, matches}
use amalgam.Memory.Eviction.{handle_weight}
use amalgam.Memory.Retention.{
  Moment, Expected, Retention, any_entry, absent, mutation, same, mutation_of, origin,
}
use amalgam.Memory.Retention.Insert.{
  insert_entry, advanced, matches_current, accepts, changes_origin,
}
use amalgam.Memory.Store.{
  invalidate_origin, apply_write, detach_remove, invalidate_all, skip_revision,
}
use amalgam.Memory.Store.Session.{
  Session, Action, read, write, issue, capture, skip, drop, invalidate, detach, discard, clear,
  expire_all, perform, owned, during,
}
use amalgam.Memory.Store.Growth.{take-Same, place_entry-Same}

left_not : (a b : Bool) → (not a && b) ≡ true → a ≡ false
left_not a b m = ground arith

module _ {ℓ} {V : Type ℓ} where
  -- A write moves its key on: a plain mutation always, one of a given representation or on behalf
  -- of an origin if its candidate is not expired and what it expects is there.
  abbrev pub moves_on : Retention V → Text → Handle V → Timestamp → Expected V → Bool
  moves_on r k h now mutation = true
  moves_on r k h now (mutation_of x) =
      not (is_physically_expired h.entry now) && matches_current x (lookup k r.entries)
  moves_on r k h now (origin x) =
      not (is_physically_expired h.entry now) && matches r.origins x r.generation
  moves_on r k h now any_entry = false
  moves_on r k h now absent = false
  moves_on r k h now (same x) = false

  -- The calls that invalidate what a factory of the key is about to write.
  abbrev pub is_mutation_of : Text → Session V → Action V → Bool
  is_mutation_of key s (write k h now expected admission event) =
      moves_on s.store k h now expected && text_eq k key
  is_mutation_of key s (skip k snapshot) =
      matches s.store.origins snapshot s.store.generation && text_eq k key
  is_mutation_of key s (invalidate k) = text_eq k key
  is_mutation_of key s (detach k) = text_eq k key
  is_mutation_of key s clear = true
  is_mutation_of key s (read k now) = false
  is_mutation_of key s issue = false
  is_mutation_of key s (capture k provided) = false
  is_mutation_of key s (drop n) = false
  is_mutation_of key s (discard k expected) = false
  is_mutation_of key s (expire_all now) = false

  insert_entry-advance :
      (at : Moment) (r : Retention V) (key : Text) (h : Handle V) (now : Timestamp)
      (expected : Expected V) (admission : CaptureAdmission) (event : MemoryWriteEvent)
      → accepts r expected (lookup key r.entries) ≡ true
      → changes_origin expected ≡ true
      → (insert_entry at r key h now expected admission event).0.origins
        ≡ advance at.alive r.origins key
  unfolding insert_entry
  insert_entry-advance at r key h now expected admission event met moving =
      elim (Bool-cases (fits r.limits 1 (handle_weight h))) [
        | inl q ↦ rw (
          met,
          q,
          (place_entry-Same at (advanced at r expected key) key h now admission event).0,
          moving,
        )
        | inr q ↦ rw (met, q, moving) refl
      ]

  apply_write-advance :
      (at : Moment) (r : Retention V) (key : Text) (h : Handle V) (now : Timestamp)
      (expected : Expected V) (admission : CaptureAdmission) (event : MemoryWriteEvent)
      → moves_on r key h now expected ≡ true
      → (apply_write at r key h now expected admission event).0.origins
        ≡ advance at.alive r.origins key
  unfolding apply_write invalidate_origin
  apply_write-advance at r key h now mutation admission event m =
      elim (Bool-cases (is_physically_expired h.entry now)) [
        | inl q ↦ rw q refl
        | inr q ↦ rw q (insert_entry-advance at r key h now mutation admission event refl refl)
      ]
  apply_write-advance at r key h now (mutation_of x) admission event m =
      let live : is_physically_expired h.entry now ≡ false = left_not _ _ m in
      rw live (
        insert_entry-advance at r key h now (mutation_of x) admission event (ground (arith, m))
          refl)
  apply_write-advance at r key h now (origin x) admission event m =
      let live : is_physically_expired h.entry now ≡ false = left_not _ _ m in
      rw live
        (insert_entry-advance at r key h now (origin x) admission event (ground (arith, m)) refl)
  apply_write-advance at r key h now any_entry admission event m = ground arith
  apply_write-advance at r key h now absent admission event m = ground arith
  apply_write-advance at r key h now (same x) admission event m = ground arith

  -- What a mutation of the key does to its revisions.
  pub mutated :
      (at : Moment) (action : Action V) (s : Session V) (key : Text)
      → is_mutation_of key s action ≡ true
      → ((perform at action s).store.origins ≡ advance (owned at s.outstanding) s.store.origins key)
        ⊎ ((perform at action s).store.generation ≡ bumped s.store.generation)
  unfolding perform invalidate_origin detach_remove invalidate_all skip_revision
  mutated at (write k h now expected admission event) s key m =
      let e : k ≡ key = ground (arith, m, text_eq_iff k key) in
      inl (
        rw (sym e) (
          apply_write-advance (during at s.outstanding) s.store k h now expected admission event
            (ground (arith, m))))
  mutated at (skip k snapshot) s key m =
      let e : k ≡ key = ground (arith, m, text_eq_iff k key) in
      let met : matches s.store.origins snapshot s.store.generation ≡ true = ground (arith, m) in
      inl (rw (sym e, met) refl)
  mutated at (invalidate k) s key m =
      let e : k ≡ key = ground (arith, m, text_eq_iff k key) in inl (rw (sym e) refl)
  mutated at (detach k) s key m =
      let e : k ≡ key = ground (arith, m, text_eq_iff k key) in
      inl (rw (sym e) (take-Same (invalidate_origin (during at s.outstanding) s.store k) k).0)
  mutated at clear s key m = inr refl
  mutated at (read k now) s key m = ground arith
  mutated at issue s key m = ground arith
  mutated at (capture k provided) s key m = ground arith
  mutated at (drop n) s key m = ground arith
  mutated at (discard k expected) s key m = ground arith
  mutated at (expire_all now) s key m = ground arith
