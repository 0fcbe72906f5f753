-- ===== src/Flight/Run/Callers.antt =====
-- src/single_flight.rs: subscriptions that are made, that take their answer, and that are dropped.
use amalgam.Prelude.{ℕ, ◌≡◌, refl, true, Option, none, some, arith, if◌then◌else◌}
use amalgam.Prelude.Assoc.{lookup, lookup-insert}
use amalgam.Prelude.Text.{Text, text_eq, text_eq_iff, text_Eq}
use amalgam.Flight.{Subscription, finished, launched, unsubscribe}
use amalgam.Flight.Table.{
  Flights, with_flight, acquire_over, subscription_at, unsubscribed, consume, dropped,
}
use amalgam.Flight.Run.Local.{is_owned, is_sane}
use amalgam.Flight.Run.Invariant.{none-all_consumed, IsCoherent, is_listed}
use amalgam.Flight.Run.Sections.{
  count-unsubscribed, consumed-unsubscribed, count-consume, consumed-consume, consumed-consume_only,
}

module _ {ℓ} {T E : Type ℓ} where
  is_listed-join :
      (t : Flights T E) (key : Text) (f : ℕ) (k : Text) (found : Option ℕ)
      → is_listed t k found ≡ true
      → is_listed (acquire_over t key (some f)) k found ≡ true
  is_listed-join t key f k none h = refl
  is_listed-join t key f k (some g) h = ground arith

  -- A new subscription of a flight that is listed.
  pub join-IsCoherent :
      (t : Flights T E) (key : Text) (f : ℕ)
      → lookup key t.entries ≡ some f
      → IsCoherent t
      → IsCoherent (acquire_over t key (some f))
  join-IsCoherent t key f e i =
      let l : is_listed t key (some f) ≡ true = ground (arith, i.listed key, e) in
      record {
        counted = λ g. ground (arith, i.counted g);
        unused = λ g. ground (arith, i.unused g, l);
        listed = λ k. is_listed-join t key f k (lookup k t.entries) (i.listed k);
        reachable = λ g. ground (arith, i.reachable g);
        sane = λ g. ground (arith, i.sane g, l);
        heard = λ g. ground (arith, i.heard g, l);
      }

  is_listed-lead :
      (t : Flights T E) (key k : Text) (found : Option ℕ)
      → is_listed t k found ≡ true
      → is_listed (acquire_over t key none) k (if text_eq key k then some t.next_flight else found)
        ≡ true
  unfolding launched
  is_listed-lead t key k none h = ground (arith, text_eq_iff key k)
  is_listed-lead t key k (some g) h = ground (arith, text_eq_iff key k)

  pub lead-IsCoherent :
      (t : Flights T E) (key : Text)
      → lookup key t.entries ≡ none
      → IsCoherent t
      → IsCoherent (acquire_over t key none)
  unfolding launched
  lead-IsCoherent t key e i =
      let n = t.next_flight in
      record {
        counted = λ g. ground (arith, i.counted g, i.unused n);
        unused = λ g. ground (arith, i.unused g);
        listed = λ k.
            rw (lookup-insert key k n t.entries)
              (is_listed-lead t key k (lookup k t.entries) (i.listed k));
        reachable = λ g. ground (
          arith,
          i.reachable g,
          e,
          lookup-insert key key n t.entries,
          text_eq_iff key key,
          lookup-insert key (t.flights g).key n t.entries,
          text_eq_iff key (t.flights g).key,
        );
        sane = λ g. ground (arith, i.sane g);
        heard = λ g. ground (arith, i.heard g);
      }

  is_listed-consume :
      (t : Flights T E) (n : ℕ) (k : Text) (found : Option ℕ)
      → is_listed t k found ≡ true
      → is_listed (record t { subscriptions = consume n t.subscriptions }) k found ≡ true
  is_listed-consume t n k none h = refl
  is_listed-consume t n k (some g) h = h

  -- An answer that was taken is marked.
  pub consume-IsCoherent :
      (t : Flights T E) (n : ℕ)
      → IsCoherent t
      → IsCoherent (record t { subscriptions = consume n t.subscriptions })
  consume-IsCoherent t n i = record {
    counted = λ g. rw (count-consume n g t.subscriptions) (i.counted g);
    unused = i.unused;
    listed = λ k. is_listed-consume t n k (lookup k t.entries) (i.listed k);
    reachable = i.reachable;
    sane = i.sane;
    heard = λ g. ground (arith, i.heard g, consumed-consume n g t.subscriptions);
  }

  is_listed-take :
      (t : Flights T E) (n : ℕ) (s : Subscription) (k : Text) (found : Option ℕ)
      → is_owned (t.flights s.flight).state ≡ true
      → is_listed t k found ≡ true
      → is_listed
          (record (with_flight t s.flight (record (t.flights s.flight) { state = finished })) {
            subscriptions = consume n t.subscriptions;
          })
          k
          found
        ≡ true
  is_listed-take t n s k none o h = refl
  is_listed-take t n s k (some g) o h = ground arith

  -- The sole subscriber takes the value away.
  pub take-IsCoherent :
      (t : Flights T E) (n : ℕ) (s : Subscription)
      → subscription_at n t.subscriptions ≡ some s
      → is_owned (t.flights s.flight).state ≡ true
      → IsCoherent t
      → IsCoherent
          (record (with_flight t s.flight (record (t.flights s.flight) { state = finished })) {
            subscriptions = consume n t.subscriptions;
          })
  take-IsCoherent t n s e o i =
      let f = s.flight in
      let z = i.sane f in
      let c = i.counted f in
      record {
        counted = λ g. ground (arith, count-consume n g t.subscriptions, i.counted g);
        unused = λ g. ground (arith, i.unused g);
        listed = λ k. is_listed-take t n s k (lookup k t.entries) o (i.listed k);
        reachable = λ g. ground (arith, i.reachable g);
        sane = λ g. ground (arith, i.sane g, o);
        heard = λ g. ground (
          arith,
          i.heard g,
          consumed-consume n g t.subscriptions,
          consumed-consume_only n f t.subscriptions s e refl,
        );
      }

  is_listed-drop :
      (t : Flights T E) (n : ℕ) (s : Subscription) (k : Text) (found : Option ℕ)
      → is_sane (t.flights s.flight) ≡ true
      → is_listed t k found ≡ true
      → is_listed (dropped t n (some s)) k found ≡ true
  unfolding unsubscribe
  is_listed-drop t n s k none z h = refl
  is_listed-drop t n s k (some g) z h = ground arith

  -- A subscription that is dropped.
  pub drop-IsCoherent :
      (t : Flights T E) (n : ℕ) (s : Subscription)
      → subscription_at n t.subscriptions ≡ some s
      → IsCoherent t
      → IsCoherent (dropped t n (some s))
  unfolding unsubscribe
  drop-IsCoherent t n s e i =
      let f = s.flight in
      let z = i.sane f in
      let c = i.counted f in
      let d = count-unsubscribed n f t.subscriptions s e in
      record {
        counted = λ g. ground (arith, count-unsubscribed n g t.subscriptions s e, i.counted g);
        unused = λ g. ground (arith, i.unused g);
        listed = λ k. is_listed-drop t n s k (lookup k t.entries) z (i.listed k);
        reachable = λ g. ground (arith, i.reachable g);
        sane = λ g. ground (arith, i.sane g);
        heard = λ g. ground (
          arith,
          i.heard g,
          consumed-unsubscribed n g t.subscriptions,
          none-all_consumed f (unsubscribed n t.subscriptions),
        );
      }
