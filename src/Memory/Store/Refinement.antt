-- ===== src/Memory/Store/Refinement.antt =====
-- src/memory.rs: within its limits, and with the injected clock only, the store is a map from keys to
-- representations that forgets those which have expired when it reads them.
use amalgam.Prelude.{
  ℕ, ◌+◌, length, ◌≡◌, refl, ap, ◌∙◌, true, false, Option, some, List, [], ◌∷◌, arith, Bool-cases,
  Option-cases, ◌⊎◌, inl, inr,
}
use amalgam.Prelude.Assoc.{lookup, lookup-insert}
use amalgam.Prelude.Maps.{is_none}
use amalgam.Prelude.Text.{Text, text_eq_iff, text_Eq}
use amalgam.Time.Timestamp.{Timestamp}
use amalgam.Entry.Envelope.{is_physically_expired}
use amalgam.Memory.{clock_driven, Handle, unarmed, set, fits}
use amalgam.Memory.Eviction.{Stored, handle_weight, projection, projection_fits, plan}
use amalgam.Memory.Retention.{
  Moment, Retention, mutation, get, take, remove_keys, retirement_reason, next_ticket,
}
use amalgam.Memory.Retention.Weights.{lookup-take}
use amalgam.Memory.Retention.Insert.{
  insert_entry, place_entry, expire_under_pressure, commit, store, advanced, kept_capture, deadline,
}
use amalgam.Memory.Store.{apply_write, detach_remove, invalidate_all, invalidate_origin}
use amalgam.Memory.Store.Reads.{reads}
use amalgam.Memory.Store.Demand.{
  IsWithin, moved-IsWithin, has_room, alone_fits, fewer_fit, fits-IsWithin, take-IsWithin,
  get-IsWithin, commit-IsWithin,
}
use amalgam.Memory.Store.Requests.{
  Request, put, look, detach, wipe, Contents, assign, specified, serve, contents, timeless, IsRoomy,
  entries_for, weight_for, entries_for_all, weight_for_all,
}

module _ {ℓ} {V : Type ℓ} where
  -- A candidate that has room is committed without victims.
  commits :
      (at : Moment) (r : Retention V) (k : Text) (h : Handle V) (now : Timestamp)
      → fits r.limits (length r.entries + 1) (r.weight + handle_weight h) ≡ true
      → (place_entry at r k h now unarmed set).0 ≡ (commit at r k h [] unarmed set).0
  unfolding place_entry expire_under_pressure plan
  commits at r k h now e =
      let f : projection_fits (projection r.entries r.weight k (handle_weight h)) r.limits ≡ true =
        has_room r k h e in
      rw (f, f) refl

  take-mode : (r : Retention V) (k : Text) → (take r k).0.expiry_mode ≡ r.expiry_mode
  unfolding take
  take-mode r k = elim (Option-cases (lookup k r.entries)) [
    | inl q ↦ rw q refl
    | inr (s, q) ↦ rw q refl
  ]

  get-mode :
      (at : Moment) (now : Option Timestamp) (r : Retention V) (k : Text)
      → (get at now r k).0.expiry_mode ≡ r.expiry_mode
  unfolding get
  get-mode at now r k = elim (Option-cases (lookup k r.entries)) [
    | inl q ↦ rw q refl
    | inr (s, q) ↦ elim (Option-cases (retirement_reason at now s)) [
      | inl z ↦ rw (q, z) refl
      | inr (why, z) ↦ rw (q, z) refl
    ]
  ]

  lookup-commit_none :
      (at : Moment) (r : Retention V) (k : Text) (h : Handle V) (j : Text)
      → r.expiry_mode ≡ clock_driven
      → (contents (commit at r k h [] unarmed set).0 j ≡ assign (contents r) k (some h) j)
        × ((timeless (lookup j r.entries) ≡ false)
            ⊎ (timeless (lookup j (commit at r k h [] unarmed set).0.entries) ≡ true))
  unfolding commit store remove_keys
  lookup-commit_none at r k h j e =
      let left = (take r k).0 in
      let s : Stored V = record {
        handle = h;
        access = next_ticket left.next_access;
        monotonic_expiration = deadline left.expiry_mode at h;
        capture = kept_capture (take r k).1 set unarmed;
      } in
      let m : is_none s.monotonic_expiration ≡ true = rw (take-mode r k, e) refl in
      (
        ground (arith, lookup-insert k j s left.entries, lookup-take r k j, text_eq_iff k j),
        ground (arith, lookup-insert k j s left.entries, lookup-take r k j, text_eq_iff k j, m),
      )

  writes :
      (at : Moment) (r : Retention V) (k : Text) (h : Handle V) (now : Timestamp) (j : Text)
      → IsRoomy r 1 (handle_weight h)
      → (contents (apply_write at r k h now mutation unarmed set).0 j
          ≡ (specified at (put k h now) (contents r)).0 j)
        × (timeless (lookup j (apply_write at r k h now mutation unarmed set).0.entries) ≡ true)
        × IsWithin r (apply_write at r k h now mutation unarmed set).0 1 (handle_weight h)
  unfolding apply_write insert_entry invalidate_origin
  writes at r k h now j u =
      let d = u.undated j in
      let moved = advanced at r mutation k in
      let f : fits r.limits 1 (handle_weight h) ≡ true = alone_fits r h u.room in
      let c = commits at moved k h now u.room in
      let l = lookup-commit_none at moved k h j u.by_clock in
      elim (Bool-cases (is_physically_expired h.entry now)) [
        | inl q ↦ rw q (
          refl,
          d,
          record { limits = refl; mode = refl; fewer = omega arith; lighter = omega arith },
        )
        | inr q ↦
            rw (q, f, c)
              (
                ground (arith, l, d, q),
                ground (arith, l, d),
                moved-IsWithin r _ moved.origins _ _ (commit-IsWithin at moved k h),
              )
      ]

  serve-refines :
      (at : Moment) (request : Request V) (r : Retention V) (j : Text)
      → IsRoomy r (entries_for request) (weight_for request)
      → (contents (serve at request r).0 j ≡ (specified at request (contents r)).0 j)
        × ((serve at request r).1 ≡ (specified at request (contents r)).1)
        × (timeless (lookup j (serve at request r).0.entries) ≡ true)
        × IsWithin r (serve at request r).0 (entries_for request) (weight_for request)
  unfolding serve detach_remove invalidate_all invalidate_origin lookup
  serve-refines at (put k h now) r j u = let (a, b, c) = writes at r k h now j u in (a, refl, b, c)
  serve-refines at (look k now) r j u =
      let (a, (b, c)) = reads at now r k j u.undated in (a, b, c, get-IsWithin at (some now) r k)
  serve-refines at (detach k) r j u =
      let moved = invalidate_origin at r k in
      let l = lookup-take moved k j in
      let d = u.undated j in
      (
        ground (arith, l, text_eq_iff k j),
        refl,
        ground (arith, l, d),
        moved-IsWithin r _ moved.origins _ _ (take-IsWithin moved k),
      )
  serve-refines at wipe r j u = (
    refl,
    refl,
    refl,
    record { limits = refl; mode = refl; fewer = omega arith; lighter = omega arith },
  )

  serve-IsRoomy :
      (at : Moment) (request : Request V) (r : Retention V) (n w : ℕ)
      → IsRoomy r (entries_for request + n) (weight_for request + w)
      → IsRoomy r (entries_for request) (weight_for request) × IsRoomy (serve at request r).0 n w
  serve-IsRoomy at request r n w u =
      let now : IsRoomy r (entries_for request) (weight_for request) = record {
        room = fewer_fit r _ _ n w u.room;
        by_clock = u.by_clock;
        undated = u.undated;
      } in
      let i = (serve-refines at request r [] now).3 in
      (
        now,
        record {
          room = fits-IsWithin r (serve at request r).0 _ _ n w i u.room;
          by_clock = rw (i.mode) u.by_clock;
          undated = λ k. (serve-refines at request r k now).2;
        },
      )

  -- The answers to a list of requests, and what is left.
  unfoldable pub serve_all :
      List (Moment × Request V) → Retention V → List (Option (Handle V)) × Retention V
  unfolding serve
  serve_all [] r = ([], r)
  serve_all ((at, q) ∷ rest) r =
      let (r', answer) = serve at q r in
      let (more, last) = serve_all rest r' in (answer ∷ more, last)

  unfoldable pub specified_all :
      List (Moment × Request V) → Contents V → List (Option (Handle V)) × Contents V
  specified_all [] m = ([], m)
  specified_all ((at, q) ∷ rest) m =
      let (m', answer) = specified at q m in
      let (more, last) = specified_all rest m' in (answer ∷ more, last)

  -- Within its limits and on the injected clock, that is, if they have room for what the store holds
  -- and for everything that the requests put, the store gives the answers of a map from keys to
  -- representations that takes writes unless they have expired, forgets what is removed or wiped,
  -- and forgets an entry when a read finds it expired or fenced off; and it is left holding what the
  -- map holds.
  pub serve_all-refines :
      (requests : List (Moment × Request V)) (r : Retention V)
      → IsRoomy r (entries_for_all requests) (weight_for_all requests)
      → ((serve_all requests r).0 ≡ (specified_all requests (contents r)).0)
        × (contents (serve_all requests r).1 ≡ (specified_all requests (contents r)).1)
  unfolding serve_all specified_all
  serve_all-refines [] r u = (refl, refl)
  serve_all-refines ((at, q) ∷ rest) r u =
      let r' = (serve at q r).0 in
      let (now, next) = serve-IsRoomy at q r (entries_for_all rest) (weight_for_all rest) u in
      let p : contents r' ≡ (specified at q (contents r)).0 =
        λ i j. (serve-refines at q r j now).0 i in
      let a = (serve-refines at q r [] now).1 in
      let (b, c) = serve_all-refines rest r' next in
      (
        λ i. a i ∷ (b ∙ ap (λ m. (specified_all rest m).0) p) i,
        c ∙ ap (λ m. (specified_all rest m).1) p,
      )
