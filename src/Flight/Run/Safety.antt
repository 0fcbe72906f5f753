-- ===== src/Flight/Run/Safety.antt =====
-- src/single_flight.rs: one computation for a key at a time, and an answer for every subscriber.
use amalgam.Prelude.{ℕ, zero, suc, ◌≡◌, refl, Bool, true, false, some, List, [], ◌∷◌, ◌==◌, arith}
use amalgam.Prelude.Assoc.{lookup}
use amalgam.Prelude.Text.{text_Eq}
use amalgam.Flight.{
  Subscription, FlightState, Answer, waiting, misuse, answers, take_answer, starting, pending,
  polling, completed, finished, owned, shared, panicked, cancelled,
}
use amalgam.Flight.Table.{Flights, acquire, answered, subscription_at, try_complete}
use amalgam.Flight.Run.{Reach}
use amalgam.Flight.Run.Local.{is_finished, is_active, was_withdrawn}
use amalgam.Flight.Run.Invariant.{all_consumed}
use amalgam.Flight.Run.Subscribers.{Reach-IsCoherent}

abbrev pub is_misuse {ℓ} : {T E : Type ℓ} → Answer T E → Bool
is_misuse waiting = false
is_misuse misuse = true
is_misuse (answers c) = false

unconsumed :
    (n : ℕ) (ss : List Subscription) (s : Subscription)
    → subscription_at n ss ≡ some s
    → s.consumed ≡ false
    → all_consumed s.flight ss ≡ false
unconsumed n [] s e c = ground arith
unconsumed zero (x ∷ ss) s e c = ground arith
unconsumed (suc n) (x ∷ ss) s e c = ground (arith, unconsumed n ss s)

is_misuse-take_answer {ℓ} :
    {T E : Type ℓ} (leader : Bool) (state : FlightState T E)
    → is_finished state ≡ false
    → is_misuse (take_answer leader state).0 ≡ false
unfolding take_answer
is_misuse-take_answer leader starting h = refl
is_misuse-take_answer leader pending h = refl
is_misuse-take_answer leader polling h = refl
is_misuse-take_answer leader finished h = ground arith
is_misuse-take_answer leader (completed (owned r)) h = refl
is_misuse-take_answer leader (completed (shared r)) h = refl
is_misuse-take_answer leader (completed (panicked p)) h = refl
is_misuse-take_answer leader (completed (cancelled reason)) h = refl

module _ {ℓ} {T E : Type ℓ} where
  is_misuse-answered :
      (t : Flights T E) (n : ℕ) (s : Subscription) (a : Answer T E × FlightState T E)
      → is_misuse (answered t n s a).1 ≡ is_misuse a.0
  is_misuse-answered t n s (waiting, state) = refl
  is_misuse-answered t n s (misuse, state) = refl
  is_misuse-answered t n s (answers c, state) = refl

  -- In every reachable state of a table, whatever the interleaving of its callers, pollers and
  -- cancellers, two flights of the same key that are both under way and not cancelled are the same
  -- flight.
  pub one_active :
      (t : Flights T E) (f g : ℕ)
      → Reach t
      → (t.flights f).key ≡ (t.flights g).key
      → is_active (t.flights f) ≡ true
      → is_active (t.flights g) ≡ true
      → (f == g) ≡ true
  one_active t f g r k a b =
      let i = Reach-IsCoherent t r in ground (arith, i.reachable f, i.reachable g, k, a, b)

  -- In every reachable state, a caller that asks for the key of a flight that is under way
  -- subscribes to it as a follower and starts no computation.
  pub acquire-joins :
      (t : Flights T E) (f : ℕ)
      → Reach t
      → is_active (t.flights f) ≡ true
      → ((acquire t (t.flights f).key).next_flight ≡ t.next_flight)
        × (((acquire t (t.flights f).key).subscriptions
              ≡ record { flight = f; leader = false; consumed = false } ∷ t.subscriptions)
            × (((acquire t (t.flights f).key).flights f).state ≡ (t.flights f).state))
  unfolding acquire
  acquire-joins t f r a =
      let i = Reach-IsCoherent t r in
      let e : lookup (t.flights f).key t.entries ≡ some f = ground (arith, i.reachable f, a) in
      rw e (ground arith)

  -- In every reachable state, the poll of a subscription that has not had its answer never finds the
  -- flight finished, unless the flight was cancelled.
  pub try_complete-answers :
      (t : Flights T E) (n : ℕ) (s : Subscription)
      → Reach t
      → subscription_at n t.subscriptions ≡ some s
      → s.consumed ≡ false
      → was_withdrawn (t.flights s.flight) ≡ false
      → is_misuse (try_complete t n).1 ≡ false
  unfolding try_complete take_answer
  try_complete-answers t n s r e c w =
      let i = Reach-IsCoherent t r in
      let h = i.heard s.flight in
      let u = unconsumed n t.subscriptions s e c in
      let l = (t.flights s.flight).state in
      rw (e, c, is_misuse-answered t n s (take_answer s.leader l))
        (is_misuse-take_answer s.leader l (ground (arith, h, u, w)))
