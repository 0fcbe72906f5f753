-- ===== src/Memory/Retention/Outcome.antt =====
-- src/memory.rs: what an insertion answers, and what it leaves.
use amalgam.Prelude.{
  ◌≤◌, ◌≡◌, refl, true, false, none, some, List, arith, Bool-cases, ◌⊎◌, inl, inr,
}
use amalgam.Prelude.Assoc.{lookup}
use amalgam.Prelude.Maps.{listed}
use amalgam.Prelude.Text.{Text, text_eq, text_Eq}
use amalgam.Options.Values.{Priority, eviction_rank}
use amalgam.Time.Timestamp.{Timestamp}
use amalgam.Memory.{MemoryAdmission, MemoryWriteEvent, CaptureAdmission, Retirement, Handle}
use amalgam.Memory.Eviction.{
  Stored, handle_weight, handle_priority, precedes, candidate, is_evictable, is_pinned,
}
use amalgam.Memory.Retention.{Moment, Expected, Retention, is_dead}
use amalgam.Memory.Retention.Insert.{expire_under_pressure, insert_entry, advanced}
use amalgam.Memory.Retention.Valid.{IsValid}
use amalgam.Memory.Retention.Placement.{expire_under_pressure-IsValid, advanced-IsValid}
use amalgam.Memory.Retention.Admission.{
  is_admitted, commit-is_admitted, holds, alive_entry, lookup-commit, lookup-expire_under_pressure,
  plan-evictable, plan-precedes, place_entry-cases, insert_entry-cases,
}

abbrev pub Answer {ℓ} : Type ℓ → Type ℓ
Answer V = Retention V × (MemoryAdmission × List (Retirement V))

module _ {ℓ} {V : Type ℓ} where
  -- An admitted candidate is what its key holds; a refused one leaves each entry that is alive.
  abbrev pub Answers : Moment → Timestamp → Retention V → Text → Handle V → Text → Answer V → Type ℓ
  Answers at now r key h j (r', (admission, retired)) =
      ((is_admitted admission ≡ true) × (holds (lookup key r'.entries) ≡ some h))
      ⊎ ((is_admitted admission ≡ false)
          × ((lookup j r'.entries ≡ lookup j r.entries)
              ⊎ (lookup j r'.entries ≡ alive_entry at now (lookup j r.entries))))

  -- An insertion into a valid store that reports an admission leaves the candidate under its key;
  -- one that reports a rejection leaves every key with what it held, or with what of it is alive at
  -- the present instant.
  pub insert_entry-Answers :
      (at : Moment) (r : Retention V) (key : Text) (h : Handle V) (now : Timestamp)
      (expected : Expected V) (capture : CaptureAdmission) (event : MemoryWriteEvent) (j : Text)
      → IsValid r
      → Answers at now r key h j (insert_entry at r key h now expected capture event)
  insert_entry-Answers at r key h now expected capture event j v =
      let P : Answer V → Type ℓ = λ q. Answers at now r key h j q in
      let moved = advanced at r expected key in
      let w = advanced-IsValid at r expected key v in
      let cleared = (expire_under_pressure at moved key (handle_weight h) now).0 in
      let c = lookup-expire_under_pressure at moved key (handle_weight h) now j w.counted in
      insert_entry-cases P at r key h now capture event expected (inr (refl, inl refl))
        (inr (refl, inl refl))
        (place_entry-cases P at moved key h now capture event (λ why. inr (refl, c))
          (λ victims e. inl (
            commit-is_admitted at cleared key h victims capture event,
            (lookup-commit at cleared key h victims capture event j).0,
          )))

  is_evictable-unpinned :
      (key : Text) (priority : Priority) (j : Text) (s : Stored V)
      → is_evictable key priority j s ≡ true
      → (is_pinned (handle_priority s.handle) ≡ false)
        × (eviction_rank (handle_priority s.handle) ≤ eviction_rank priority)
  unfolding is_evictable
  is_evictable-unpinned key priority j s e = ground arith

  -- What becomes of an entry that is alive and stored under another key.
  abbrev pub Spares : Text → Handle V → Text → Stored V → Answer V → Type ℓ
  Spares key h j s (r', (admission, retired)) =
      (lookup j r'.entries ≡ some s)
      ⊎ ((is_admitted admission ≡ true)
          × ((lookup j r'.entries ≡ none)
              × ((is_pinned (handle_priority s.handle) ≡ false)
                  × (eviction_rank (handle_priority s.handle)
                      ≤ eviction_rank (handle_priority h)))))

  -- An entry that a valid store holds under another key, alive at the present instant, outlives an
  -- insertion, unless the candidate is admitted and the entry is not pinned and of no higher rank
  -- than the candidate.
  pub insert_entry-Spares :
      (at : Moment) (r : Retention V) (key : Text) (h : Handle V) (now : Timestamp)
      (expected : Expected V) (capture : CaptureAdmission) (event : MemoryWriteEvent) (j : Text)
      (s : Stored V)
      → IsValid r
      → text_eq key j ≡ false
      → lookup j r.entries ≡ some s
      → is_dead at (some now) s ≡ false
      → Spares key h j s (insert_entry at r key h now expected capture event)
  insert_entry-Spares at r key h now expected capture event j s v other stored live =
      let P : Answer V → Type ℓ = λ q. Spares key h j s q in
      let moved = advanced at r expected key in
      let w = advanced-IsValid at r expected key v in
      let cleared = (expire_under_pressure at moved key (handle_weight h) now).0 in
      let u = expire_under_pressure-IsValid at moved key (handle_weight h) now w in
      let c = lookup-expire_under_pressure at moved key (handle_weight h) now j w.counted in
      let kept : lookup j cleared.entries ≡ some s = ground (arith, c, stored, live) in
      insert_entry-cases P at r key h now capture event expected (inl stored) (inl stored) (
        place_entry-cases P at moved key h now capture event (λ why. inl kept)
          (λ victims e.
            let x =
              plan-evictable cleared key (handle_weight h) (handle_priority h) victims j u.counted
                e in
            let y = lookup-commit at cleared key h victims capture event j in
            let z = commit-is_admitted at cleared key h victims capture event in
            elim (Bool-cases (listed j victims)) [
              | inl q ↦ inr (
                z,
                (
                  ground (arith, y, q, other),
                  is_evictable-unpinned key (handle_priority h) j s (ground (arith, x q, kept)),
                ),
              )
              | inr q ↦ inl (ground (arith, y, q, other, kept))
            ]))

  -- Of two entries of other keys in a valid store that may give way to a candidate, one that is
  -- alive and yet is gone after the insertion comes before one that is still there: by rank, then by
  -- last use, then by key.
  pub insert_entry-precedes :
      (at : Moment) (r : Retention V) (key : Text) (h : Handle V) (now : Timestamp)
      (expected : Expected V) (capture : CaptureAdmission) (event : MemoryWriteEvent) (k j : Text)
      (s t : Stored V)
      → IsValid r
      → text_eq key k ≡ false
      → text_eq key j ≡ false
      → lookup k r.entries ≡ some s
      → is_dead at (some now) s ≡ false
      → lookup j r.entries ≡ some t
      → is_evictable key (handle_priority h) j t ≡ true
      → lookup k (insert_entry at r key h now expected capture event).0.entries ≡ none
      → lookup j (insert_entry at r key h now expected capture event).0.entries ≡ some t
      → precedes (candidate k s) (candidate j t) ≡ true
  insert_entry-precedes at r key h now expected capture event k j s t v nk nj sk live sj may =
      let P : Answer V → Type ℓ = λ q.
        lookup k q.0.entries ≡ none
        → lookup j q.0.entries ≡ some t
        → precedes (candidate k s) (candidate j t) ≡ true in
      let moved = advanced at r expected key in
      let w = advanced-IsValid at r expected key v in
      let cleared = (expire_under_pressure at moved key (handle_weight h) now).0 in
      let u = expire_under_pressure-IsValid at moved key (handle_weight h) now w in
      let c = lookup-expire_under_pressure at moved key (handle_weight h) now k w.counted in
      let kept : lookup k cleared.entries ≡ some s = ground (arith, c, sk, live) in
      insert_entry-cases P at r key h now capture event expected
        (λ gone stays. ground (arith, gone, sk)) (λ gone stays. ground (arith, gone, sk))
        (place_entry-cases P at moved key h now capture event
          (λ why gone stays. ground (arith, gone, kept))
          (λ victims e gone stays.
            let x = lookup-commit at cleared key h victims capture event k in
            let y = lookup-commit at cleared key h victims capture event j in
            let hk : listed k victims ≡ true = ground (arith, x, kept, gone, nk) in
            let hj : listed j victims ≡ false = ground (arith, y, stays, nj) in
            let oj : lookup j cleared.entries ≡ some t = ground (arith, y, stays, nj, hj) in
            let (a, m) =
              plan-evictable cleared key (handle_weight h) (handle_priority h) victims k u.counted e
                hk in
            plan-precedes cleared key (handle_weight h) (handle_priority h) victims k j
              (candidate k s) (candidate j t) u.counted e hk hj (ground (arith, m, kept))
              (ground (arith, oj, may))))
