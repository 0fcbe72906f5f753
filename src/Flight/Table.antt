-- ===== src/Flight/Table.antt =====
-- src/single_flight.rs: the table of flights. Flights are known by their numbers, and so are the
-- subscriptions, in a list from which a drop takes them.
use amalgam.Prelude.{
  ℕ, zero, suc, ◌+◌, Bool, true, false, Option, none, some, List, [], ◌∷◌, ◌==◌, ◌&&◌, ltb, update,
  if◌then◌else◌,
}
use amalgam.Prelude.Assoc.{lookup, insert, remove}
use amalgam.Prelude.Text.{Text, text_Eq}
use amalgam.Flight.{
  Flight, Subscription, Answer, waiting, misuse, answers, Stage, idle, running, settled, retired,
  resolved, FlightState, finished, launched, take_answer, unsubscribe, is_starting, unlaunched,
}

-- `Flights`, with every flight that was made and every subscription that is held.
pub record Flights {ℓ} (T E : Type ℓ) : Type ℓ where
  pub entries : List (Text × ℕ)
  pub flights : ℕ → Flight T E
  pub next_flight : ℕ
  pub subscriptions : List Subscription

abbrev pub subscription_at : ℕ → List Subscription → Option Subscription
subscription_at n [] = none
subscription_at zero (s ∷ ss) = some s
subscription_at (suc n) (s ∷ ss) = subscription_at n ss

abbrev pub unsubscribed : ℕ → List Subscription → List Subscription
unsubscribed n [] = []
unsubscribed zero (s ∷ ss) = ss
unsubscribed (suc n) (s ∷ ss) = s ∷ unsubscribed n ss

abbrev pub consume : ℕ → List Subscription → List Subscription
consume n [] = []
consume zero (s ∷ ss) = record s { consumed = true } ∷ ss
consume (suc n) (s ∷ ss) = s ∷ consume n ss

abbrev pub is_entry : ℕ → Option ℕ → Bool
is_entry f none = false
is_entry f (some g) = g == f

module _ {ℓ} {T E : Type ℓ} where
  unfoldable pub new : Flights T E
  unfolding unlaunched
  new = record { entries = []; flights = λ n. unlaunched; next_flight = 0; subscriptions = [] }

  abbrev pub with_flight : Flights T E → ℕ → Flight T E → Flights T E
  with_flight t f fl = record t { flights = update t.flights f fl }

  abbrev joined : Flight T E → Flight T E
  joined fl = record fl { subscribers = fl.subscribers + 1 }

  abbrev subscribed : Flights T E → ℕ → Bool → Flights T E
  subscribed t f leader = record t {
    subscriptions = record { flight = f; leader = leader; consumed = false } ∷ t.subscriptions;
  }

  abbrev pub acquire_over : Flights T E → Text → Option ℕ → Flights T E
  acquire_over t key (some f) = subscribed (with_flight t f (joined (t.flights f))) f false
  acquire_over t key none =
      subscribed
        (record (with_flight t t.next_flight (launched key)) {
          entries = insert key t.next_flight t.entries;
          next_flight = t.next_flight + 1;
        })
        t.next_flight true

  -- The caller joins the flight of its key, or leads a new one.
  unfoldable pub acquire : Flights T E → Text → Flights T E
  unfolding launched
  acquire t key = acquire_over t key (lookup key t.entries)

  -- The removal of a flight's entry, which `complete` and `cancel` share.
  unfoldable pub remove_entry : Flights T E → ℕ → Flights T E
  remove_entry t f = record t {
    entries =
        (if is_entry f (lookup (t.flights f).key t.entries)
          then remove (t.flights f).key t.entries
          else t.entries);
  }

  abbrev pub retired_at : Flights T E → ℕ → Stage T E → Flights T E
  retired_at t f idle = t
  retired_at t f running = t
  retired_at t f (settled u) =
      with_flight (remove_entry t f) f (record (t.flights f) { stage = retired u })
  retired_at t f (retired u) = t
  retired_at t f (resolved u) = t

  -- `complete` takes the entry away before it publishes the terminal state.
  unfoldable pub retire : Flights T E → ℕ → Flights T E
  unfolding remove_entry
  retire t f = retired_at t f (t.flights f).stage

  -- The last section of `cancel`.
  unfoldable pub withdraw : Flights T E → ℕ → Flights T E
  unfolding remove_entry
  withdraw t f = if ltb 0 (t.flights f).withdrawals then remove_entry t f else t

  unfoldable pub abandon_start : Flights T E → ℕ → Flights T E
  abandon_start t f =
      if (t.flights f).subscribers == 0 && is_starting (t.flights f).state
      then record (with_flight t f (record (t.flights f) { state = finished })) {
        entries = remove (t.flights f).key t.entries;
      }
      else t

  -- The flight in the state that an answer leaves, and the subscription that had it.
  abbrev pub answered :
      Flights T E → ℕ → Subscription → Answer T E × FlightState T E → Flights T E × Answer T E
  answered t n s (waiting, state) =
      (with_flight t s.flight (record (t.flights s.flight) { state = state }), waiting)
  answered t n s (misuse, state) =
      (with_flight t s.flight (record (t.flights s.flight) { state = state }), misuse)
  answered t n s (answers c, state) = (
    record (with_flight t s.flight (record (t.flights s.flight) { state = state })) {
      subscriptions = consume n t.subscriptions;
    },
    answers c,
  )

  abbrev pub polled : Flights T E → ℕ → Option Subscription → Flights T E × Answer T E
  polled t n none = (t, waiting)
  polled t n (some s) =
      if s.consumed
      then (t, misuse)
      else answered t n s (take_answer s.leader (t.flights s.flight).state)

  -- `try_complete` of the subscription that stands at a place.
  unfoldable pub try_complete : Flights T E → ℕ → Flights T E × Answer T E
  unfolding take_answer
  try_complete t n = polled t n (subscription_at n t.subscriptions)

  abbrev pub dropped : Flights T E → ℕ → Option Subscription → Flights T E
  dropped t n none = t
  dropped t n (some s) = record (with_flight t s.flight (unsubscribe (t.flights s.flight))) {
    subscriptions = unsubscribed n t.subscriptions;
  }

  unfoldable pub drop_subscription : Flights T E → ℕ → Flights T E
  unfolding unsubscribe
  drop_subscription t n = dropped t n (subscription_at n t.subscriptions)
