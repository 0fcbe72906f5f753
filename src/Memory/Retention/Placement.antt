-- ===== src/Memory/Retention/Placement.antt =====
-- src/memory.rs: an insertion keeps the store within its limits.
use amalgam.Prelude.{
  ℕ, ◌+◌, ◌≡◌, true, none, some, List, arith, length, Option-cases, Bool-cases, inl, inr,
}
use amalgam.Prelude.Result.{ok, Result-cases}
use amalgam.Prelude.Assoc.{lookup, lookup-remove}
use amalgam.Prelude.Maps.{distinct-insert, total-remove, total-insert_new}
use amalgam.Prelude.Text.{Text, text_eq_iff, text_Eq}
use amalgam.Options.Values.{Priority}
use amalgam.Time.Timestamp.{Timestamp}
use amalgam.Memory.{fits, MemoryWriteEvent, CaptureAdmission, RetirementReason, Handle}
use amalgam.Memory.Eviction.{
  Stored, entry_weight, handle_weight, handle_priority, projection, projection_fits,
  eligible_victims, plan,
}
use amalgam.Memory.Eviction.Victims.{eligible_victims-IsBacked}
use amalgam.Memory.Retention.{Moment, Expected, Retention, take, removed, remove_keys, next_ticket}
use amalgam.Memory.Retention.Weights.{IsWeighed, removed-IsWeighed, remove_keys-IsWeighed}
use amalgam.Memory.Retention.Room.{projected, take_victims-fits}
use amalgam.Memory.Retention.Insert.{
  store, commit, expire_under_pressure, place_entry, insert_entry, accepts, advanced, kept_capture,
  deadline,
}
use amalgam.Memory.Retention.Valid.{IsValid, remove_expired-IsValid}

module _ {ℓ} {V : Type ℓ} where
  plan-fits :
      (reason : Stored V → RetirementReason) (r : Retention V) (key : Text) (w : ℕ)
      (priority : Priority) (ks : List Text)
      → IsWeighed r
      → plan r.limits r.entries r.weight key w priority ≡ ok ks
      → projection_fits (projected (remove_keys reason ks r).0 key w) r.limits ≡ true
  unfolding plan remove_keys
  plan-fits reason r key w priority ks v e =
      let cs = eligible_victims key priority r.entries in
      let (b, u) = eligible_victims-IsBacked key priority r.entries v.keyed in
      elim (Bool-cases (projection_fits (projected r key w) r.limits)) [
        | inl q ↦ ground (arith, q, e)
        | inr q ↦ take_victims-fits reason r.limits r key w cs ks v b u (ground (arith, q, e))
      ]

  inserted-IsValid :
      (at : Moment) (r : Retention V) (key : Text) (h : Handle V) (capture : CaptureAdmission)
      → IsWeighed r
      → lookup key r.entries ≡ none
      → fits r.limits (length r.entries + 1) (r.weight + handle_weight h) ≡ true
      → IsValid (store at r key h capture)
  unfolding store
  inserted-IsValid at r key h capture v e p =
      let s : Stored V = record {
        handle = h;
        access = next_ticket r.next_access;
        monotonic_expiration = deadline r.expiry_mode at h;
        capture = capture;
      } in
      let t = total-insert_new entry_weight key s r.entries e in
      record {
        counted = record {
          keyed = distinct-insert key s r.entries v.keyed;
          weighed = omega (arith, t.0, v.weighed);
        };
        bounded = rw t.1 p;
      }

  -- The candidate takes the place of what its key held.
  stored-IsValid :
      (at : Moment) (r : Retention V) (key : Text) (h : Handle V) (capture : CaptureAdmission)
      → IsWeighed r
      → projection_fits (projected r key (handle_weight h)) r.limits ≡ true
      → IsValid (store at (take r key).0 key h capture)
  unfolding take projection lookup
  stored-IsValid at r key h capture v p = elim (Option-cases (lookup key r.entries)) [
    | inl e ↦
        let f : fits r.limits (length r.entries + 1) (r.weight + handle_weight h) ≡ true =
          ground (arith, p, e) in
        rw e (inserted-IsValid at r key h capture v e f)
    | inr (s, e) ↦
        let left = removed r key (some s) in
        let t = total-remove entry_weight key r.entries s v.keyed e in
        let w : IsWeighed left = removed-IsWeighed r key (some s) e v in
        let g : lookup key left.entries ≡ none =
          ground (arith, lookup-remove key key r.entries, text_eq_iff key key) in
        let f : fits left.limits (length left.entries + 1) (left.weight + handle_weight h) ≡ true =
          ground (arith, p, e, t) in
        rw e (inserted-IsValid at left key h capture w g f)
  ]

  -- The plan's victims leave room, so that the commit of the plan is within the limits.
  pub commit-IsValid :
      (at : Moment) (r : Retention V) (key : Text) (h : Handle V) (victims : List Text)
      (capture : CaptureAdmission) (event : MemoryWriteEvent)
      → IsWeighed r
      → plan r.limits r.entries r.weight key (handle_weight h) (handle_priority h) ≡ ok victims
      → IsValid (commit at r key h victims capture event).0
  unfolding commit
  commit-IsValid at r key h victims capture event v e =
      let why : Stored V → RetirementReason = λ s. RetirementReason.capacity in
      let freed = (remove_keys why victims r).0 in
      let (w, p) = remove_keys-IsWeighed why victims r v in
      let room = plan-fits why r key (handle_weight h) (handle_priority h) victims v e in
      let kept = kept_capture (take freed key).1 event capture in
      stored-IsValid at freed key h kept w (rw p.same_limits room)

  pub expire_under_pressure-IsValid :
      (at : Moment) (r : Retention V) (key : Text) (weight : ℕ) (now : Timestamp)
      → IsValid r
      → IsValid (expire_under_pressure at r key weight now).0
  unfolding expire_under_pressure
  expire_under_pressure-IsValid at r key weight now v =
      let w = remove_expired-IsValid at (some now) r v in
      elim (Bool-cases (projection_fits (projected r key weight) r.limits)) [
        | inl q ↦ rw q v
        | inr q ↦ rw q w
      ]

  pub place_entry-IsValid :
      (at : Moment) (r : Retention V) (key : Text) (h : Handle V) (now : Timestamp)
      (capture : CaptureAdmission) (event : MemoryWriteEvent)
      → IsValid r
      → IsValid (place_entry at r key h now capture event).0
  unfolding place_entry
  place_entry-IsValid at r key h now capture event v =
      let cleared = (expire_under_pressure at r key (handle_weight h) now).0 in
      let w = expire_under_pressure-IsValid at r key (handle_weight h) now v in
      let p =
        plan cleared.limits cleared.entries cleared.weight key (handle_weight h)
          (handle_priority h) in
      elim (Result-cases p) [
        | inl (victims, q) ↦
            rw q (commit-IsValid at cleared key h victims capture event w.counted q)
        | inr (why, q) ↦ rw q w
      ]

  pub advanced-IsValid :
      (at : Moment) (r : Retention V) (expected : Expected V) (key : Text)
      → IsValid r
      → IsValid (advanced at r expected key)
  advanced-IsValid at r expected key v = record {
    counted = record { keyed = v.counted.keyed; weighed = v.counted.weighed };
    bounded = v.bounded;
  }

  -- The store stays within its limits whatever an insertion does: it is refused, it replaces what
  -- its key holds, or it takes the room of expired entries and of victims.
  pub insert_entry-IsValid :
      (at : Moment) (r : Retention V) (key : Text) (h : Handle V) (now : Timestamp)
      (expected : Expected V) (capture : CaptureAdmission) (event : MemoryWriteEvent)
      → IsValid r
      → IsValid (insert_entry at r key h now expected capture event).0
  unfolding insert_entry
  insert_entry-IsValid at r key h now expected capture event v =
      let moved = advanced at r expected key in
      let w = advanced-IsValid at r expected key v in
      elim (Bool-cases (accepts r expected (lookup key r.entries))) [
        | inr q ↦ rw q v
        | inl q ↦ elim (Bool-cases (fits r.limits 1 (handle_weight h))) [
          | inl f ↦ rw (q, f) (place_entry-IsValid at moved key h now capture event w)
          | inr f ↦ rw (q, f) w
        ]
      ]
