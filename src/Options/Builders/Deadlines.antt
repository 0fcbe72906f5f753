-- ===== src/Options/Builders/Deadlines.antt =====
-- src/options.rs: which time budgets the budget state is about.
use amalgam.Prelude.{
  ◌≡◌, ◌≢◌, refl, ◌⊎◌, inl, inr, Bool, true, false, ◌||◌, List, arith, any, Bool-cases,
}
use amalgam.Prelude.Result.{ok, err, ◌>>=◌}
use amalgam.Time.Duration.{Duration}
use amalgam.Time.Timeout.{Timeout, infinite, after}
use amalgam.Error.{deadline_out_of_range}
use amalgam.Options.Entry.{
  EntryOptions, options_for, memory_lock_timeout, distributed_lock_timeout, size,
}
use amalgam.Options.Budgets.{
  timeouts, timer_timeouts, overflowing, needs_timer, validate, requires_timer_runtime,
  refresh_budgets,
}
use amalgam.Options.Builders.Calls.{Call, build, sampled, IsFresh, build-IsFresh, start-IsFresh}

-- A budget that is waited for, if it is finite.
pub data IsTimed (o : EntryOptions) (t : Timeout) : Type 0 where
  memory_lock : t ≡ memory_lock_timeout o → IsTimed o t
  factory_soft : t ≡ o.factory_soft_timeout → IsTimed o t
  factory_hard : t ≡ o.factory_hard_timeout → IsTimed o t
  distributed_soft : t ≡ o.distributed_soft_timeout → IsTimed o t
  distributed_hard : t ≡ o.distributed_hard_timeout → IsTimed o t

-- Any budget: the lock of the distributed cache has one more.
abbrev pub IsBudget : EntryOptions → Timeout → Type 0
IsBudget o t = IsTimed o t ⊎ (t ≡ distributed_lock_timeout o)

-- A budget ends beyond the range of the clock.
abbrev pub Exceeds : (Duration → Bool) → EntryOptions → Type 0
Exceeds f o = (t : Timeout) × IsBudget o t × ((d : Duration) × (t ≡ after d) × (f d ≡ true))

-- Some budget has to be waited for.
abbrev pub Waits : EntryOptions → Type 0
Waits o = (t : Timeout) × IsTimed o t × ((d : Duration) × (t ≡ after d) × (d ≢ 0))

-- A negative size is refused, and then a budget beyond the range of the clock; a runtime is required
-- for such a budget, and for one that has to be waited for.
abbrev pub IsJudged : (Duration → Bool) → EntryOptions → Type 0
IsJudged f o =
    (Exceeds f o
      × (validate o ≡ (size o >>= λ _. err deadline_out_of_range))
      × (requires_timer_runtime o ≡ true))
    ⊎ ((¬ Exceeds f o)
        × (validate o ≡ (size o >>= λ _. ok tt))
        × ((Waits o × (requires_timer_runtime o ≡ true))
            ⊎ ((¬ Waits o) × (requires_timer_runtime o ≡ false))))

module _ (p : Timeout → Bool) (o : EntryOptions) where
  IsTimed-any : (t : Timeout) → IsTimed o t → p t ≡ true → any p (timer_timeouts o) ≡ true
  IsTimed-any t (memory_lock e) h = ground (arith, e, h)
  IsTimed-any t (factory_soft e) h = ground (arith, e, h)
  IsTimed-any t (factory_hard e) h = ground (arith, e, h)
  IsTimed-any t (distributed_soft e) h = ground (arith, e, h)
  IsTimed-any t (distributed_hard e) h = ground (arith, e, h)

  any-IsTimed : any p (timer_timeouts o) ≡ true → (t : Timeout) × IsTimed o t × (p t ≡ true)
  any-IsTimed h = elim (Bool-cases (p (memory_lock_timeout o))) [
    | inl e ↦ (memory_lock_timeout o, memory_lock refl, e)
    | inr a ↦ elim (Bool-cases (p o.factory_soft_timeout)) [
      | inl e ↦ (o.factory_soft_timeout, factory_soft refl, e)
      | inr b ↦ elim (Bool-cases (p o.factory_hard_timeout)) [
        | inl e ↦ (o.factory_hard_timeout, factory_hard refl, e)
        | inr c ↦ elim (Bool-cases (p o.distributed_soft_timeout)) [
          | inl e ↦ (o.distributed_soft_timeout, distributed_soft refl, e)
          | inr d ↦
              (o.distributed_hard_timeout, distributed_hard refl, ground (arith, h, a, b, c, d))
        ]
      ]
    ]
  ]

  any_split : any p (timeouts o) ≡ (any p (timer_timeouts o) || p (distributed_lock_timeout o))
  any_split = ground arith

  any-IsBudget : any p (timeouts o) ≡ true → (t : Timeout) × IsBudget o t × (p t ≡ true)
  any-IsBudget h = elim (Bool-cases (p (distributed_lock_timeout o))) [
    | inl e ↦ (distributed_lock_timeout o, inr refl, e)
    | inr a ↦ let (t, i, e) = any-IsTimed (ground (arith, h, a, any_split)) in (t, inl i, e)
  ]

  IsBudget-any : (t : Timeout) → IsBudget o t → p t ≡ true → any p (timeouts o) ≡ true
  IsBudget-any t (inl i) h = ground (arith, any_split, IsTimed-any t i h)
  IsBudget-any t (inr e) h = ground (arith, any_split, e, h)

overflowing-after :
    (f : Duration → Bool) (t : Timeout)
    → overflowing f t ≡ true
    → (d : Duration) × (t ≡ after d) × (f d ≡ true)
overflowing-after f (after d) h = (d, refl, h)
overflowing-after f infinite h = absurd (ground arith)

needs_timer-after : (t : Timeout) → needs_timer t ≡ true → (d : Duration) × (t ≡ after d) × (d ≢ 0)
needs_timer-after (after d) h = (d, refl, λ e. ground (arith, h, e))
needs_timer-after infinite h = absurd (ground arith)

module _ (f : Duration → Bool) (o : EntryOptions) where
  overflowing-Exceeds : any (overflowing f) (timeouts o) ≡ true → Exceeds f o
  overflowing-Exceeds h =
      let (t, i, e) = any-IsBudget (overflowing f) o h in (t, i, overflowing-after f t e)

  Exceeds-overflowing : Exceeds f o → any (overflowing f) (timeouts o) ≡ true
  Exceeds-overflowing (t, i, (d, e, h)) = IsBudget-any (overflowing f) o t i (rw e h)

  needs_timer-Waits : any needs_timer (timer_timeouts o) ≡ true → Waits o
  needs_timer-Waits h = let (t, i, e) = any-IsTimed needs_timer o h in (t, i, needs_timer-after t e)

  Waits-needs_timer : Waits o → any needs_timer (timer_timeouts o) ≡ true
  Waits-needs_timer (t, i, (d, e, h)) = IsTimed-any needs_timer o t i (rw e (ground (arith, h)))

  fresh_budgets : IsFresh f o → IsJudged f o
  unfolding validate requires_timer_runtime refresh_budgets
  fresh_budgets v = elim (Bool-cases (any (overflowing f) (timeouts o))) [
    | inl e ↦ inl (overflowing-Exceeds e, ground (arith, v, e), ground (arith, v, e))
    | inr e ↦ inr (
      λ x. ground (arith, e, Exceeds-overflowing x),
      ground (arith, v, e),
      elim (Bool-cases (any needs_timer (timer_timeouts o))) [
        | inl w ↦ inl (needs_timer-Waits w, ground (arith, v, e, w))
        | inr w ↦ inr (λ x. ground (arith, w, Waits-needs_timer x), ground (arith, v, e, w))
      ],
    )
  ]

-- Whatever builders are called on new options, in whatever order and at whatever instants,
-- validation refuses a negative size, and otherwise exactly a finite timeout that was beyond the
-- range of the clock when a timeout was last set; and a timer runtime is required exactly if there
-- is such a timeout, or some timeout other than that of the distributed lock is finite and not zero.
pub build_budgets :
    (d : Duration) (cs : List ((Duration → Bool) × Call))
    → IsJudged (sampled (λ _. false) cs) (build (options_for d) cs)
build_budgets d cs =
    fresh_budgets _ _ (build-IsFresh (λ _. false) (options_for d) cs (start-IsFresh (λ _. false) d))
