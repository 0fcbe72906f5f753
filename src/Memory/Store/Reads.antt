-- ===== src/Memory/Store/Reads.antt =====
-- src/memory.rs: what a read answers and forgets, where entries expire by the injected clock.
use amalgam.Prelude.{◌≡◌, refl, true, false, none, some, arith, Option-cases, inl, inr}
use amalgam.Prelude.Assoc.{lookup, lookup-remove, lookup-insert}
use amalgam.Prelude.Maps.{is_none}
use amalgam.Prelude.Text.{Text, text_eq_iff, text_Eq}
use amalgam.Time.Timestamp.{Timestamp}
use amalgam.Memory.{RetirementReason}
use amalgam.Memory.Eviction.{Stored}
use amalgam.Memory.Retention.{Moment, Retention, get, retirement_reason, next_ticket}
use amalgam.Memory.Retention.Admission.{holds}
use amalgam.Memory.Store.Requests.{
  assign, has_expired, alive_handle, read_answer, contents, timeless,
}

module _ {ℓ} {V : Type ℓ} where
  timeless_at :
      (r : Retention V) (k : Text) (s : Stored V)
      → ((j : Text) → timeless (lookup j r.entries) ≡ true)
      → lookup k r.entries ≡ some s
      → is_none s.monotonic_expiration ≡ true
  timeless_at r k s u e = ground (arith, e, u k)

  live_kept :
      (at : Moment) (now : Timestamp) (s : Stored V)
      → is_none s.monotonic_expiration ≡ true
      → retirement_reason at (some now) s ≡ none
      → has_expired at now s.handle ≡ false
  unfolding retirement_reason
  live_kept at now s m q = ground arith

  dead_dropped :
      (at : Moment) (now : Timestamp) (s : Stored V) (why : RetirementReason)
      → is_none s.monotonic_expiration ≡ true
      → retirement_reason at (some now) s ≡ some why
      → has_expired at now s.handle ≡ true
  unfolding retirement_reason
  dead_dropped at now s why m q = ground arith

  pub reads :
      (at : Moment) (now : Timestamp) (r : Retention V) (k j : Text)
      → ((i : Text) → timeless (lookup i r.entries) ≡ true)
      → (holds (lookup j (get at (some now) r k).0.entries)
          ≡ assign (contents r) k (alive_handle at now (contents r k)) j)
        × ((read_answer (get at (some now) r k).1 ≡ alive_handle at now (contents r k))
            × (timeless (lookup j (get at (some now) r k).0.entries) ≡ true))
  unfolding get
  reads at now r k j u = elim (Option-cases (lookup k r.entries)) [
    | inl e ↦ let d = u j in rw e (ground (arith, e, text_eq_iff k j), (refl, d))
    | inr (s, e) ↦ elim (Option-cases (retirement_reason at (some now) s)) [
      | inl q ↦
          let used : Stored V = record s { access = next_ticket r.next_access } in
          let d = u j in
          let x = live_kept at now s (timeless_at r k s u e) q in
          rw (e, q)
            (
              ground (arith, x, lookup-insert k j used r.entries),
              (
                ground (arith, x),
                ground (arith, d, timeless_at r k s u e, lookup-insert k j used r.entries),
              ),
            )
      | inr (why, q) ↦
          let d = u j in
          let x = dead_dropped at now s why (timeless_at r k s u e) q in
          rw (e, q)
            (
              ground (arith, x, lookup-remove k j r.entries),
              (ground (arith, x), ground (arith, d, lookup-remove k j r.entries)),
            )
    ]
  ]
