-- ===== src/Entry/Reuse/Behaviour.antt =====
-- src/entry.rs: what each way of serving an entry again does, on every branch.
use amalgam.Prelude.{
  ◌≡◌, refl, Bool, true, false, not, ◌||◌, ◌⊎◌, inl, inr, Option, none, some, arith, Bool-cases,
  if◌then◌else◌,
}
use amalgam.Prelude.Int.{◌≤ℤ◌, ltb_ℤ, min_ℤ}
use amalgam.Prelude.Result.{ok, err, Result-cases}
use amalgam.Time.Duration.{Duration}
use amalgam.Time.Timestamp.{Timestamp, saturating_add}
use amalgam.Error.{ConfigError}
use amalgam.Options.Values.{F32, EntryWeight}
use amalgam.Options.Entry.{EntryOptions, size}
use amalgam.Options.Budgets.{validate}
use amalgam.Entry.Envelope.{
  Entry, Epochs, fresh, stale, freshness, is_physically_expired, is_read_eligible,
  should_eager_refresh, is_from_fail_safe,
}
use amalgam.Entry.Envelope.Laws.{IsWellFormed}
use amalgam.Entry.Reuse.{
  throttle, try_throttled, with_logical_expiration_at, for_memory_hydration,
  prepare_memory_hydration, hydrated_meta,
}

module _ {ℓ} {V : Type ℓ} where
  abbrev pub is_unusable : Epochs → Entry V → Timestamp → Bool
  is_unusable epochs e now = not (is_read_eligible e epochs) || is_physically_expired e now

  -- Invalid options are refused first; otherwise a fenced-off or dead source yields nothing, and
  -- any other yields a fail-safe entry that is fresh exactly until the throttle window or the
  -- physical lifetime of the source ends, and that never starts an eager refresh.
  pub try_throttled_cases :
      (epochs : Epochs) (s : Entry V) (o : EntryOptions) (now later : Timestamp)
      → ((e : ConfigError) × (validate o ≡ err e) × (try_throttled epochs s o now ≡ err e))
        ⊎ ((validate o ≡ ok tt)
            × (is_unusable epochs s now ≡ true)
            × (try_throttled epochs s o now ≡ ok none))
        ⊎ ((validate o ≡ ok tt)
            × (is_unusable epochs s now ≡ false)
            × ((t : Entry V) × (try_throttled epochs s o now ≡ ok (some t))
                × (is_from_fail_safe t.meta ≡ true)
                × ((freshness t later ≡ (
                      if ltb_ℤ later (
                        min_ℤ
                          (saturating_add now o.fail_safe_throttle_duration)
                          s.meta.physical_expiration)
                      then fresh
                      else stale))
                    × (should_eager_refresh t later ≡ false))))
  unfolding try_throttled freshness should_eager_refresh is_from_fail_safe
  try_throttled_cases epochs s o now later = elim (Result-cases (validate o)) [
    | inr (e, p) ↦ inl (e, p, rw (p, try_throttled))
    | inl (_, p) ↦ elim (Bool-cases (is_unusable epochs s now)) [
      | inl q ↦ inr (inl (p, q, rw (p, try_throttled, q)))
      | inr q ↦ inr (inr (p, q, (throttle s o now, rw (p, try_throttled, q), refl, (refl, refl))))
    ]
  ]

  -- An entry expired at an instant is stale from that instant on, dies when it would have died
  -- before, and starts no eager refresh then.
  pub with_logical_expiration_at_stale :
      (s : Entry V) (at inserted_at now : Timestamp)
      → at ≤ℤ now
      → (freshness (with_logical_expiration_at s at inserted_at) now ≡ stale)
        × (is_physically_expired (with_logical_expiration_at s at inserted_at) now
            ≡ is_physically_expired s now)
        × (should_eager_refresh (with_logical_expiration_at s at inserted_at) now ≡ false)
  unfolding with_logical_expiration_at freshness is_physically_expired should_eager_refresh
  with_logical_expiration_at_stale s at inserted_at now h = ground arith

  hydrated_shorter :
      (mul_f32 : Duration → F32 → Duration) (s : Entry V) (o : EntryOptions)
      (w : Option EntryWeight) (now : Timestamp)
      → IsWellFormed s.meta
      → let t : Entry V = record s { meta = hydrated_meta s mul_f32 o w now } in
        (later : Timestamp)
        → ((freshness t later ≡ stale) ⊎ (freshness s later ≡ fresh))
          × ((is_physically_expired s later ≡ false) ⊎ (is_physically_expired t later ≡ true))
  unfolding hydrated_meta freshness is_physically_expired
  hydrated_shorter mul_f32 s o w now v later = (ground arith, ground arith)

  -- Hydrating a well-formed entry refuses an invalid size, delivers nothing exactly for a
  -- fenced-off or dead source, and otherwise delivers an entry that is fresh, or alive, only while
  -- the source is.
  pub for_memory_hydration_cases :
      (mul_f32 : Duration → F32 → Duration) (epochs : Epochs) (s : Entry V) (o : EntryOptions)
      (now later : Timestamp)
      → IsWellFormed s.meta
      → ((e : ConfigError) × (size o ≡ err e)
          × (for_memory_hydration s mul_f32 epochs o now ≡ err e))
        ⊎ ((is_unusable epochs s now ≡ true)
            × (for_memory_hydration s mul_f32 epochs o now ≡ ok none))
        ⊎ ((is_unusable epochs s now ≡ false)
            × ((t : Entry V) × (for_memory_hydration s mul_f32 epochs o now ≡ ok (some t))
                × ((freshness t later ≡ stale) ⊎ (freshness s later ≡ fresh))
                × ((is_physically_expired s later ≡ false)
                    ⊎ (is_physically_expired t later ≡ true))))
  unfolding for_memory_hydration prepare_memory_hydration freshness is_physically_expired
  for_memory_hydration_cases mul_f32 epochs s o now later v = elim (Result-cases (size o)) [
    | inr (e, p) ↦ inl (e, p, rw p)
    | inl (w, p) ↦ elim (Bool-cases (is_unusable epochs s now)) [
      | inl q ↦ inr (inl (q, rw (p, q)))
      | inr q ↦ inr (
          inr (
            q,
            (
              record s { meta = hydrated_meta s mul_f32 o w now },
              rw (p, q),
              (hydrated_shorter mul_f32 s o w now v later).0,
              (hydrated_shorter mul_f32 s o w now v later).1,
            ),
          ))
    ]
  ]
