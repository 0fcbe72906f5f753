-- ===== src/Memory/Retention/Valid.antt =====
-- src/memory.rs: the store stays within its limits, whatever is read, removed or inserted.
use amalgam.Prelude.{
  ℕ, ◌≤◌, ◌≡◌, refl, sym, true, Option, none, some, List, [], arith, length, Option-cases, inl, inr,
}
use amalgam.Prelude.Assoc.{lookup}
use amalgam.Prelude.Maps.{distinct-insert, total-insert_same}
use amalgam.Prelude.Text.{Text, text_Eq}
use amalgam.Time.Timestamp.{Timestamp}
use amalgam.Memory.{MemoryLimits, fits, within, MemoryExpiry, RetirementReason}
use amalgam.Memory.Eviction.{Stored, entry_weight}
use amalgam.Memory.Retention.{
  Moment, Retention, new, take, get, retirement_reason, removed, remove_keys, remove_expired,
  dead_keys, expiry_reason, next_ticket,
}
use amalgam.Memory.Retention.Weights.{
  IsWeighed, IsPruned, take-IsWeighed, take-IsPruned, remove_keys-IsWeighed,
}

within-le : (l : Option ℕ) (m n : ℕ) → m ≤ n → within l n ≡ true → within l m ≡ true
within-le none m n h e = refl
within-le (some l) m n h e = ground arith

module _ {ℓ} {V : Type ℓ} where
  -- A store whose counted weight is that of its entries, and that is within its limits.
  pub record IsValid (r : Retention V) : Type ℓ where
    pub counted : IsWeighed r
    pub bounded : fits r.limits (length r.entries) r.weight ≡ true

  pub new-IsValid : (limits : MemoryLimits) (mode : MemoryExpiry) → IsValid (new limits mode)
  unfolding new
  new-IsValid limits mode = record {
    counted = record { keyed = refl; weighed = refl };
    bounded = ground (arith, within-le limits.entries 0, within-le limits.weight 0);
  }

  pub cleared-IsValid :
      (r : Retention V) (generation : ℕ)
      → IsValid r
      → IsValid (record r { generation = generation; entries = []; weight = 0 })
  cleared-IsValid r generation v = record {
    counted = record { keyed = refl; weighed = refl };
    bounded =
        let b = v.bounded in
        let n = within-le r.limits.entries 0 (length r.entries) in
        let w = within-le r.limits.weight 0 r.weight in ground arith;
  }

  pruned-IsValid : (r t : Retention V) → IsValid r → IsWeighed t → IsPruned r t → IsValid t
  pruned-IsValid r t v w p = record {
    counted = w;
    bounded =
        let b = v.bounded in
        let e = p.same_limits in
        let a = within-le r.limits.entries (length t.entries) (length r.entries) p.shorter in
        let c = within-le r.limits.weight t.weight r.weight p.lighter in ground arith;
  }

  pub take-IsValid : (r : Retention V) (k : Text) → IsValid r → IsValid (take r k).0
  take-IsValid r k v =
      pruned-IsValid r (take r k).0 v (take-IsWeighed r k v.counted) (take-IsPruned r k v.counted)

  removed-IsValid :
      (r : Retention V) (k : Text) (found : Option (Stored V))
      → lookup k r.entries ≡ found
      → IsValid r
      → IsValid (removed r k found)
  unfolding take
  removed-IsValid r k found e v = rw (sym e) (take-IsValid r k v)

  pub remove_keys-IsValid :
      (reason : Stored V → RetirementReason) (ks : List Text) (r : Retention V)
      → IsValid r
      → IsValid (remove_keys reason ks r).0
  remove_keys-IsValid reason ks r v =
      let (w, p) = remove_keys-IsWeighed reason ks r v.counted in
      pruned-IsValid r (remove_keys reason ks r).0 v w p

  pub remove_expired-IsValid :
      (at : Moment) (now : Option Timestamp) (r : Retention V)
      → IsValid r
      → IsValid (remove_expired at now r).0
  unfolding remove_expired
  remove_expired-IsValid at now r v =
      remove_keys-IsValid (expiry_reason at now) (dead_keys at now r.entries) r v

  -- A use changes an entry's ticket only.
  pub get-IsValid :
      (at : Moment) (now : Option Timestamp) (r : Retention V) (k : Text)
      → IsValid r
      → IsValid (get at now r k).0
  unfolding get take
  get-IsValid at now r k v = elim (Option-cases (lookup k r.entries)) [
    | inl e ↦ rw e (record {
      counted = record { keyed = v.counted.keyed; weighed = v.counted.weighed };
      bounded = v.bounded;
    })
    | inr (s, e) ↦ elim (Option-cases (retirement_reason at now s)) [
      | inl q ↦
          let used : Stored V = record s { access = next_ticket r.next_access } in
          let t = total-insert_same entry_weight k used r.entries s v.counted.keyed e refl in
          rw (e, q)
            (record {
              counted = record {
                keyed = distinct-insert k used r.entries v.counted.keyed;
                weighed = rw t.0 v.counted.weighed;
              };
              bounded = rw t.1 v.bounded;
            })
      | inr (why, q) ↦ rw (e, q) (removed-IsValid r k (some s) e v)
    ]
  ]
