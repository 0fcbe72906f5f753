-- ===== src/Flight/Run/Sections.antt =====
-- src/single_flight.rs: each section keeps the table coherent.
use amalgam.Prelude.{
  ℕ, zero, suc, ◌+◌, ◌≡◌, ◌≤◌, refl, sym, true, some, List, [], ◌∷◌, ◌==◌, ◌&&◌, ltb, arith,
  Bool-cases, update, if◌then◌else◌, inl, inr, ◌⊎◌,
}
use amalgam.Prelude.Assoc.{lookup, remove}
use amalgam.Prelude.Text.{text_Eq}
use amalgam.Flight.{
  Subscription, finished, Stage, idle, running, settled, retired, resolved, is_starting,
}
use amalgam.Flight.Table.{
  Flights, remove_entry, retired_at, withdraw, abandon_start, subscription_at, unsubscribed,
  consume, is_entry,
}
use amalgam.Flight.Run.Invariant.{
  subscribers_of, all_consumed, none-all_consumed, IsCoherent, Retires-IsCoherent, delisted,
}

pub count-unsubscribed :
    (n f : ℕ) (ss : List Subscription) (s : Subscription)
    → subscription_at n ss ≡ some s
    → subscribers_of f ss ≡ (
        if s.flight == f
        then subscribers_of f (unsubscribed n ss) + 1
        else subscribers_of f (unsubscribed n ss))
count-unsubscribed n f [] s e = ground arith
count-unsubscribed zero f (x ∷ ss) s e = ground arith
count-unsubscribed (suc n) f (x ∷ ss) s e = ground (arith, count-unsubscribed n f ss s)

pub consumed-unsubscribed :
    (n f : ℕ) (ss : List Subscription)
    → all_consumed f ss ≡ true
    → all_consumed f (unsubscribed n ss) ≡ true
consumed-unsubscribed n f [] h = refl
consumed-unsubscribed zero f (x ∷ ss) h = ground arith
consumed-unsubscribed (suc n) f (x ∷ ss) h = ground (arith, consumed-unsubscribed n f ss)

pub count-consume :
    (n f : ℕ) (ss : List Subscription) → subscribers_of f (consume n ss) ≡ subscribers_of f ss
count-consume n f [] = refl
count-consume zero f (x ∷ ss) = ground arith
count-consume (suc n) f (x ∷ ss) = ground (arith, count-consume n f ss)

pub consumed-consume :
    (n f : ℕ) (ss : List Subscription)
    → all_consumed f ss ≡ true
    → all_consumed f (consume n ss) ≡ true
consumed-consume n f [] h = refl
consumed-consume zero f (x ∷ ss) h = ground arith
consumed-consume (suc n) f (x ∷ ss) h = ground (arith, consumed-consume n f ss)

-- The only subscription of a flight is the one that takes its answer.
pub consumed-consume_only :
    (n f : ℕ) (ss : List Subscription) (s : Subscription)
    → subscription_at n ss ≡ some s
    → s.flight ≡ f
    → subscribers_of f ss ≤ 1
    → all_consumed f (consume n ss) ≡ true
consumed-consume_only n f [] s e h l = refl
consumed-consume_only zero f (x ∷ ss) s e h l = ground (arith, none-all_consumed f ss)
consumed-consume_only (suc n) f (x ∷ ss) s e h l =
    ground (arith, consumed-consume_only n f ss s, count-unsubscribed n f ss s)

update-other {ℓ} :
    {A : Type ℓ} (fs : ℕ → A) (f : ℕ) (x : A) (g : ℕ) → ((f == g) ≡ true) ⊎ (update fs f x g ≡ fs g)
update-other fs f x g = elim (Bool-cases (f == g)) [ inl q ↦ inl q | inr q ↦ inr (rw q refl) ]

module _ {ℓ} {T E : Type ℓ} where
  pub retired_at-IsCoherent :
      (t : Flights T E) (f : ℕ) (stage : Stage T E)
      → (t.flights f).stage ≡ stage
      → IsCoherent t
      → IsCoherent (retired_at t f stage)
  unfolding remove_entry
  retired_at-IsCoherent t f idle e i = i
  retired_at-IsCoherent t f running e i = i
  retired_at-IsCoherent t f (retired u) e i = i
  retired_at-IsCoherent t f (resolved u) e i = i
  retired_at-IsCoherent t f (settled u) e i =
      let fl = record (t.flights f) { stage = retired u } in
      let s = i.sane f in
      Retires-IsCoherent t f (update t.flights f fl)
        (record {
          same_key = ground arith;
          same_subscribers = ground arith;
          sane = ground arith;
          inactive = ground arith;
          finishes = ground arith;
        })
        (update-other t.flights f fl) i

  pub withdraw-IsCoherent : (t : Flights T E) (f : ℕ) → IsCoherent t → IsCoherent (withdraw t f)
  unfolding withdraw remove_entry
  withdraw-IsCoherent t f i =
      let s = i.sane f in
      elim (Bool-cases (ltb 0 (t.flights f).withdrawals)) [
        | inr q ↦ rw q i
        | inl q ↦ rw q (
            Retires-IsCoherent t f t.flights
              (record {
                same_key = refl;
                same_subscribers = refl;
                sane = s;
                inactive = ground arith;
                finishes = ground arith;
              })
              (λ g. inr refl) i)
      ]

  pub abandon_start-IsCoherent :
      (t : Flights T E) (f : ℕ) → IsCoherent t → IsCoherent (abandon_start t f)
  unfolding abandon_start
  abandon_start-IsCoherent t f i =
      let s = i.sane f in
      let fl = record (t.flights f) { state = finished } in
      elim (Bool-cases ((t.flights f).subscribers == 0 && is_starting (t.flights f).state)) [
        | inr q ↦ rw q i
        | inl q ↦
            let e : is_entry f (lookup (t.flights f).key t.entries) ≡ true =
              ground (arith, q, i.reachable f) in
            let x : delisted t f ≡ remove (t.flights f).key t.entries = ground (arith, e) in
            rw (q, sym x)
              (Retires-IsCoherent t f (update t.flights f fl)
                (record {
                  same_key = ground arith;
                  same_subscribers = ground arith;
                  sane = ground arith;
                  inactive = ground arith;
                  finishes = ground arith;
                })
                (update-other t.flights f fl) i)
      ]
