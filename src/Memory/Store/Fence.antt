-- ===== src/Memory/Store/Fence.antt =====
-- src/memory/origin.rs: an origin that no longer matches is fenced off for good.
use amalgam.Prelude.{ℕ, ◌≡◌, refl, Bool, true, false, List, [], ◌∷◌, ◌||◌, arith, ltb}
use amalgam.Prelude.Text.{Text, text_Eq}
use amalgam.Time.Timestamp.{Timestamp}
use amalgam.Memory.{CaptureAdmission, Handle, MemoryWriteEvent}
use amalgam.Memory.Origins.{RevisionSnapshot, matches}
use amalgam.Memory.Retention.{Moment, origin, Retention}
use amalgam.Memory.Retention.Insert.{insert_entry}
use amalgam.Memory.Retention.Admission.{is_admitted}
use amalgam.Memory.Store.{apply_write}
use amalgam.Memory.Store.Session.{Session, Action, perform, run}
use amalgam.Memory.Store.Counters.{IsTracked, Grows, Same-Grows, Grows-trans, perform-Grows}

module _ {ℓ} {V : Type ℓ} where
  run-Grows :
      (actions : List (Moment × Action V)) (c : ℕ) (s : Session V)
      → IsTracked c s.store
      → Grows c s.store (run actions s).store
  unfolding run
  run-Grows [] c s i = Same-Grows c s.store s.store i (refl, refl)
  run-Grows ((at, action) ∷ rest) c s i =
      let g = perform-Grows at action c s i in
      Grows-trans c s.store (perform at action s).store (run rest (perform at action s)).store g
        (run-Grows rest c (perform at action s) g.0)

  -- The captured value, or the captured generation, has been passed.
  abbrev pub is_fenced : RevisionSnapshot → Retention V → Bool
  is_fenced s r = ltb s.captured (r.origins.current s.revision) || ltb s.generation r.generation

  pub run-is_fenced :
      (actions : List (Moment × Action V)) (o : RevisionSnapshot) (s : Session V)
      → IsTracked o.revision s.store
      → is_fenced o s.store ≡ true
      → is_fenced o (run actions s).store ≡ true
  run-is_fenced actions o s i f =
      let (j, (a, b)) = run-Grows actions o.revision s i in ground (arith, a, b, f)

  -- Once an origin is fenced off, no later write of its factory is admitted or changes the store,
  -- whatever the store has done in between.
  pub apply_write-fenced :
      (actions : List (Moment × Action V)) (at : Moment) (o : RevisionSnapshot) (s : Session V)
      (key : Text) (h : Handle V) (now : Timestamp) (admission : CaptureAdmission)
      (event : MemoryWriteEvent)
      → IsTracked o.revision s.store
      → is_fenced o s.store ≡ true
      → ((apply_write at (run actions s).store key h now (origin o) admission event).0
          ≡ (run actions s).store)
        × (is_admitted
              (apply_write at (run actions s).store key h now (origin o) admission event).1.0
            ≡ false)
  unfolding apply_write insert_entry matches
  apply_write-fenced actions at o s key h now admission event i f =
      let g = run-is_fenced actions o s i f in ground arith
