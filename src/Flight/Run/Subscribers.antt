-- ===== src/Flight/Run/Subscribers.antt =====
-- src/single_flight.rs: the sections of the callers keep the table coherent.
use amalgam.Prelude.{
  ℕ, ◌≡◌, refl, Bool, Option, none, some, arith, Bool-cases, Option-cases, inl, inr,
}
use amalgam.Prelude.Assoc.{lookup}
use amalgam.Prelude.Text.{text_Eq}
use amalgam.Flight.{
  Subscription, FlightState, starting, pending, polling, completed, finished, owned, shared,
  panicked, cancelled, panic_answer, unlaunched, take_answer,
}
use amalgam.Flight.Table.{
  Flights, new, with_flight, acquire, retire, try_complete, drop_subscription, subscription_at,
  polled, answered,
}
use amalgam.Flight.Run.{
  Action, acquires, on_cell, retires, withdraws, abandons, completes, drops, act, perform, Reach,
  start, step,
}
use amalgam.Flight.Run.Local.{act-Confines}
use amalgam.Flight.Run.Invariant.{IsCoherent, Confines-IsCoherent}
use amalgam.Flight.Run.Sections.{
  retired_at-IsCoherent, withdraw-IsCoherent, abandon_start-IsCoherent,
}
use amalgam.Flight.Run.Callers.{
  join-IsCoherent, lead-IsCoherent, consume-IsCoherent, take-IsCoherent, drop-IsCoherent,
}

module _ {ℓ} {T E : Type ℓ} where
  restated-IsCoherent :
      (t : Flights T E) (f : ℕ) (state : FlightState T E)
      → (t.flights f).state ≡ state
      → IsCoherent t
      → IsCoherent (with_flight t f (record (t.flights f) { state = state }))
  restated-IsCoherent t f state e i =
      let z = i.sane f in
      Confines-IsCoherent t f (record (t.flights f) { state = state })
        (record {
          same_key = refl;
          same_subscribers = refl;
          sane = ground (arith, e);
          opens = ground (arith, e);
          activates = ground (arith, e);
          finishes = ground (arith, e);
        })
        i

  -- The payload of a panic is taken by the leader.
  panicked-IsCoherent :
      (t : Flights T E) (f : ℕ) (present left : Bool)
      → (t.flights f).state ≡ completed (panicked present)
      → IsCoherent t
      → IsCoherent (with_flight t f (record (t.flights f) { state = completed (panicked left) }))
  panicked-IsCoherent t f present left e i =
      let z = i.sane f in
      Confines-IsCoherent t f (record (t.flights f) { state = completed (panicked left) })
        (record {
          same_key = refl;
          same_subscribers = refl;
          sane = ground (arith, e);
          opens = ground (arith, e);
          activates = ground (arith, e);
          finishes = ground (arith, e);
        })
        i

  -- The answer to a subscription that has not had one.
  answered-IsCoherent :
      (t : Flights T E) (n : ℕ) (s : Subscription) (state : FlightState T E)
      → subscription_at n t.subscriptions ≡ some s
      → (t.flights s.flight).state ≡ state
      → IsCoherent t
      → IsCoherent (answered t n s (take_answer s.leader state)).0
  unfolding take_answer
  answered-IsCoherent t n s starting e q i = restated-IsCoherent t s.flight _ (ground (arith, q)) i
  answered-IsCoherent t n s pending e q i = restated-IsCoherent t s.flight _ (ground (arith, q)) i
  answered-IsCoherent t n s polling e q i = restated-IsCoherent t s.flight _ (ground (arith, q)) i
  answered-IsCoherent t n s finished e q i = restated-IsCoherent t s.flight _ (ground (arith, q)) i
  answered-IsCoherent t n s (completed (owned r)) e q i =
      take-IsCoherent t n s e (ground (arith, q)) i
  answered-IsCoherent t n s (completed (shared r)) e q i =
      consume-IsCoherent
        (with_flight t s.flight (record (t.flights s.flight) { state = completed (shared r) })) n
        (restated-IsCoherent t s.flight (completed (shared r)) (ground (arith, q)) i)
  answered-IsCoherent t n s (completed (panicked p)) e q i =
      let left = (panic_answer s.leader p).1 in
      consume-IsCoherent
        (with_flight t s.flight (record (t.flights s.flight) { state = completed (panicked left) }))
        n (panicked-IsCoherent t s.flight p left q i)
  answered-IsCoherent t n s (completed (cancelled reason)) e q i =
      consume-IsCoherent
        (with_flight t s.flight
          (record (t.flights s.flight) { state = completed (cancelled reason) }))
        n (restated-IsCoherent t s.flight (completed (cancelled reason)) (ground (arith, q)) i)

  polled-IsCoherent :
      (t : Flights T E) (n : ℕ) (found : Option Subscription)
      → subscription_at n t.subscriptions ≡ found
      → IsCoherent t
      → IsCoherent (polled t n found).0
  polled-IsCoherent t n none e i = i
  polled-IsCoherent t n (some s) e i = elim (Bool-cases s.consumed) [
    | inl c ↦ rw c i
    | inr c ↦ rw c (answered-IsCoherent t n s (t.flights s.flight).state e refl i)
  ]

  perform-IsCoherent :
      (action : Action T E) (t : Flights T E) → IsCoherent t → IsCoherent (perform action t)
  unfolding perform acquire retire try_complete drop_subscription
  perform-IsCoherent (acquires key) t i = elim (Option-cases (lookup key t.entries)) [
    | inl e ↦ rw e (lead-IsCoherent t key e i)
    | inr (f, e) ↦ rw e (join-IsCoherent t key f e i)
  ]
  perform-IsCoherent (on_cell f action) t i =
      Confines-IsCoherent t f (act action (t.flights f))
        (act-Confines action (t.flights f) (i.sane f)) i
  perform-IsCoherent (retires f) t i = retired_at-IsCoherent t f (t.flights f).stage refl i
  perform-IsCoherent (withdraws f) t i = withdraw-IsCoherent t f i
  perform-IsCoherent (abandons f) t i = abandon_start-IsCoherent t f i
  perform-IsCoherent (completes n) t i =
      polled-IsCoherent t n (subscription_at n t.subscriptions) refl i
  perform-IsCoherent (drops n) t i = elim (Option-cases (subscription_at n t.subscriptions)) [
    | inl e ↦ rw e i
    | inr (s, e) ↦ rw e (drop-IsCoherent t n s e i)
  ]

  pub Reach-IsCoherent : (t : Flights T E) → Reach t → IsCoherent t
  unfolding new unlaunched lookup
  Reach-IsCoherent t start = record {
    counted = λ f. refl;
    unused = λ f. ground arith;
    listed = λ k. refl;
    reachable = λ f. refl;
    sane = λ f. refl;
    heard = λ f. refl;
  }
  Reach-IsCoherent t (step action t' r) = perform-IsCoherent action t' (Reach-IsCoherent t' r)
