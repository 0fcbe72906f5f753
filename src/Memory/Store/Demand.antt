-- ===== src/Memory/Store/Demand.antt =====
-- src/memory.rs: how much a request can add to what the store with limits holds.
use amalgam.Prelude.{
  ℕ, ◌+◌, ◌≤◌, ◌≡◌, refl, true, Option, none, some, [], length, arith, Option-cases, inl, inr,
}
use amalgam.Prelude.Assoc.{lookup, length-insert, length-insert-le, length-remove-le}
use amalgam.Prelude.Text.{Text, text_Eq}
use amalgam.Time.Timestamp.{Timestamp}
use amalgam.Memory.{MemoryLimits, within, fits, Handle, unarmed, set}
use amalgam.Memory.Origins.{Origins}
use amalgam.Memory.Eviction.{Stored, handle_weight, projection, projection_fits}
use amalgam.Memory.Retention.{
  Moment, Retention, get, take, remove_keys, retirement_reason, next_ticket,
}
use amalgam.Memory.Retention.Insert.{commit, store, kept_capture, deadline}

within-le : (l : Option ℕ) (m n : ℕ) → m ≤ n → within l n ≡ true → within l m ≡ true
within-le none m n h e = refl
within-le (some limit) m n h e = ground arith

fits-le : (l : MemoryLimits) (a b c d : ℕ) → a ≤ c → b ≤ d → fits l c d ≡ true → fits l a b ≡ true
fits-le l a b c d p q e = ground (arith, within-le l.entries a c p, within-le l.weight b d q, e)

module _ {ℓ} {V : Type ℓ} where
  -- What a request leaves, beside what it finds.
  pub record IsWithin (r t : Retention V) (count weight : ℕ) : Type ℓ where
    pub limits : t.limits ≡ r.limits
    pub mode : t.expiry_mode ≡ r.expiry_mode
    pub fewer : length t.entries ≤ length r.entries + count
    pub lighter : t.weight ≤ r.weight + weight

  pub moved-IsWithin :
      (r t : Retention V) (o : Origins) (a b : ℕ)
      → IsWithin (record r { origins = o }) t a b
      → IsWithin r t a b
  moved-IsWithin r t o a b i = record {
    limits = i.limits;
    mode = i.mode;
    fewer = i.fewer;
    lighter = i.lighter;
  }

  pub has_room :
      (r : Retention V) (k : Text) (h : Handle V)
      → fits r.limits (length r.entries + 1) (r.weight + handle_weight h) ≡ true
      → projection_fits (projection r.entries r.weight k (handle_weight h)) r.limits ≡ true
  unfolding projection
  has_room r k h e = elim (Option-cases (lookup k r.entries)) [
    | inl q ↦ rw q (fits-le r.limits _ _ _ _ (omega arith) (omega arith) e)
    | inr (s, q) ↦ rw q (fits-le r.limits _ _ _ _ (omega arith) (omega arith) e)
  ]

  pub alone_fits :
      (r : Retention V) (h : Handle V)
      → fits r.limits (length r.entries + 1) (r.weight + handle_weight h) ≡ true
      → fits r.limits 1 (handle_weight h) ≡ true
  alone_fits r h e = fits-le r.limits _ _ _ _ (omega arith) (omega arith) e

  pub fewer_fit :
      (r : Retention V) (a b n w : ℕ)
      → fits r.limits (length r.entries + (a + n)) (r.weight + (b + w)) ≡ true
      → fits r.limits (length r.entries + a) (r.weight + b) ≡ true
  fewer_fit r a b n w e = fits-le r.limits _ _ _ _ (omega arith) (omega arith) e

  pub fits-IsWithin :
      (r t : Retention V) (a b n w : ℕ)
      → IsWithin r t a b
      → fits r.limits (length r.entries + (a + n)) (r.weight + (b + w)) ≡ true
      → fits t.limits (length t.entries + n) (t.weight + w) ≡ true
  fits-IsWithin r t a b n w i e =
      rw i.limits (fits-le r.limits _ _ _ _ (omega (arith, i.fewer)) (omega (arith, i.lighter)) e)

  pub take-IsWithin : (r : Retention V) (k : Text) → IsWithin r (take r k).0 0 0
  unfolding take
  take-IsWithin r k = elim (Option-cases (lookup k r.entries)) [
    | inl q ↦
        rw q (record { limits = refl; mode = refl; fewer = omega arith; lighter = omega arith })
    | inr (s, q) ↦ rw q (record {
      limits = refl;
      mode = refl;
      fewer = omega (arith, length-remove-le k r.entries);
      lighter = omega arith;
    })
  ]

  pub get-IsWithin :
      (at : Moment) (now : Option Timestamp) (r : Retention V) (k : Text)
      → IsWithin r (get at now r k).0 0 0
  unfolding get
  get-IsWithin at now r k = elim (Option-cases (lookup k r.entries)) [
    | inl q ↦
        rw q (record { limits = refl; mode = refl; fewer = omega arith; lighter = omega arith })
    | inr (s, q) ↦ elim (Option-cases (retirement_reason at now s)) [
      | inl z ↦
          let used : Stored V = record s { access = next_ticket r.next_access } in
          rw (q, z)
            (record {
              limits = refl;
              mode = refl;
              fewer = ground (arith, q, length-insert k used r.entries);
              lighter = omega arith;
            })
      | inr (why, z) ↦
          rw (q, z)
            (record {
              limits = refl;
              mode = refl;
              fewer = omega (arith, length-remove-le k r.entries);
              lighter = omega arith;
            })
    ]
  ]

  pub commit-IsWithin :
      (at : Moment) (r : Retention V) (k : Text) (h : Handle V)
      → IsWithin r (commit at r k h [] unarmed set).0 1 (handle_weight h)
  unfolding commit store remove_keys
  commit-IsWithin at r k h =
      let left = (take r k).0 in
      let i = take-IsWithin r k in
      let s : Stored V = record {
        handle = h;
        access = next_ticket left.next_access;
        monotonic_expiration = deadline left.expiry_mode at h;
        capture = kept_capture (take r k).1 set unarmed;
      } in
      record {
        limits = i.limits;
        mode = i.mode;
        fewer = omega (arith, i.fewer, length-insert-le k s left.entries);
        lighter = omega (arith, i.lighter);
      }
