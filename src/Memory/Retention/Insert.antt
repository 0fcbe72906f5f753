-- ===== src/Memory/Retention/Insert.antt =====
-- src/memory.rs: the insertion of a candidate into `Retention`.
use amalgam.Prelude.{
  ℕ, ◌+◌, Bool, true, false, not, Option, none, some, List, [], ◌++◌, ◌==◌, if◌then◌else◌,
}
use amalgam.Prelude.Assoc.{lookup, insert}
use amalgam.Prelude.Text.{Text, text_Eq}
use amalgam.Prelude.Result.{Result, ok, err}
use amalgam.Time.Timestamp.{Timestamp}
use amalgam.Memory.{
  fits, MemoryExpiry, clock_driven, real_time, CapacityRejection, oversized, version_changed,
  MemoryAdmission, admitted, replaced, rejected, MemoryWriteEvent, set, expire, CaptureAdmission,
  RetirementReason, Handle, Retirement,
}
use amalgam.Memory.Origins.{advance, matches}
use amalgam.Memory.Eviction.{
  Stored, handle_weight, handle_priority, projection, projection_fits, plan,
}
use amalgam.Memory.Retention.{
  Moment, Expected, any_entry, absent, mutation, same, mutation_of, origin, Retention, next_ticket,
  replacing, take, remove_keys, remove_expired, retired_of,
}

module _ {ℓ} {V : Type ℓ} where
  abbrev pub matches_current : Handle V → Option (Stored V) → Bool
  matches_current h none = false
  matches_current h (some s) = s.handle.instance_id == h.instance_id

  -- `matches_generation`
  abbrev pub accepts : Retention V → Expected V → Option (Stored V) → Bool
  accepts r any_entry current = true
  accepts r mutation current = true
  accepts r absent none = true
  accepts r absent (some s) = false
  accepts r (same h) current = matches_current h current
  accepts r (mutation_of h) current = matches_current h current
  accepts r (origin s) current = matches r.origins s r.generation

  abbrev pub changes_origin : Expected V → Bool
  changes_origin any_entry = false
  changes_origin absent = false
  changes_origin (same h) = false
  changes_origin mutation = true
  changes_origin (mutation_of h) = true
  changes_origin (origin s) = true

  abbrev pub deadline : MemoryExpiry → Moment → Handle V → Option ℕ
  deadline clock_driven at h = none
  deadline real_time at h =
      if at.overflows h.entry.meta.backend_ttl
      then none
      else some (at.elapsed + h.entry.meta.backend_ttl)

  unfoldable pub store : Moment → Retention V → Text → Handle V → CaptureAdmission → Retention V
  store at r key h capture = record r {
    entries =
        insert key
          (record {
            handle = h;
            access = next_ticket r.next_access;
            monotonic_expiration = deadline r.expiry_mode at h;
            capture = capture;
          })
          r.entries;
    next_access = next_ticket r.next_access;
    weight = r.weight + handle_weight h;
  }

  abbrev pub kept_capture :
      Option (Stored V) → MemoryWriteEvent → CaptureAdmission → CaptureAdmission
  kept_capture (some old) expire capture = old.capture
  kept_capture (some old) set capture = capture
  kept_capture none event capture = capture

  abbrev pub outcome_of : Option (Stored V) → MemoryAdmission
  outcome_of none = admitted
  outcome_of (some s) = replaced

  unfoldable pub commit :
      Moment
      → Retention V
      → Text
      → Handle V
      → List Text
      → CaptureAdmission
      → MemoryWriteEvent
      → Retention V × (MemoryAdmission × List (Retirement V))
  unfolding remove_keys take store
  commit at r key h victims capture event =
      let (freed, evicted) = remove_keys (λ s. RetirementReason.capacity) victims r in
      let (left, old) = take freed key in
      (
        store at left key h (kept_capture old event capture),
        (outcome_of old, evicted ++ retired_of (λ s. replacing event) key old []),
      )

  unfoldable pub expire_under_pressure :
      Moment → Retention V → Text → ℕ → Timestamp → Retention V × List (Retirement V)
  unfolding remove_expired
  expire_under_pressure at r key weight now =
      if projection_fits (projection r.entries r.weight key weight) r.limits
      then (r, [])
      else remove_expired at (some now) r

  abbrev pub commit_planned :
      Moment
      → Retention V
      → List (Retirement V)
      → Text
      → Handle V
      → CaptureAdmission
      → MemoryWriteEvent
      → Result (List Text) CapacityRejection
      → Retention V × (MemoryAdmission × List (Retirement V))
  commit_planned at r retired key h capture event (err reason) = (r, (rejected reason, retired))
  commit_planned at r retired key h capture event (ok victims) =
      let (r', (admission, more)) = commit at r key h victims capture event in
      (r', (admission, retired ++ more))

  abbrev pub advanced : Moment → Retention V → Expected V → Text → Retention V
  advanced at r expected key = record r {
    origins = if changes_origin expected then advance at.alive r.origins key else r.origins;
  }

  -- An insertion past its two refusals.
  unfoldable pub place_entry :
      Moment
      → Retention V
      → Text
      → Handle V
      → Timestamp
      → CaptureAdmission
      → MemoryWriteEvent
      → Retention V × (MemoryAdmission × List (Retirement V))
  unfolding commit expire_under_pressure
  place_entry at r key h now capture event =
      let (cleared, retired) = expire_under_pressure at r key (handle_weight h) now in
      commit_planned at cleared retired key h capture event (
        plan cleared.limits cleared.entries cleared.weight key (handle_weight h)
          (handle_priority h))

  unfoldable pub insert_entry :
      Moment
      → Retention V
      → Text
      → Handle V
      → Timestamp
      → Expected V
      → CaptureAdmission
      → MemoryWriteEvent
      → Retention V × (MemoryAdmission × List (Retirement V))
  unfolding place_entry
  insert_entry at r key h now expected capture event =
      if not (accepts r expected (lookup key r.entries))
      then (r, (rejected version_changed, []))
      else (let moved = advanced at r expected key in
          if not (fits r.limits 1 (handle_weight h))
          then (moved, (rejected oversized, []))
          else place_entry at moved key h now capture event)
