-- ===== src/Flight/Run/Invariant.antt =====
-- src/single_flight.rs: what holds of the table in every state that it can reach.
use amalgam.Prelude.{
  ℕ, ◌+◌, ◌≡◌, refl, Bool, true, false, not, Option, none, some, List, [], ◌∷◌, ◌==◌, ◌&&◌, ◌||◌,
  ltb, arith, all, Bool-cases, Option-cases, if◌then◌else◌, inl, inr, ◌⊎◌,
}
use amalgam.Prelude.Assoc.{lookup, remove, lookup-remove}
use amalgam.Prelude.Text.{Text, text_eq, text_eq_iff, text_Eq}
use amalgam.Flight.{Flight, Subscription}
use amalgam.Flight.Table.{Flights, with_flight, is_entry}
use amalgam.Flight.Run.Local.{is_finished, is_open, was_withdrawn, is_active, is_sane, Confines}

-- The subscriptions of a flight.
abbrev pub subscribers_of : ℕ → List Subscription → ℕ
subscribers_of f [] = 0
subscribers_of f (s ∷ ss) =
    let rest = subscribers_of f ss in if s.flight == f then rest + 1 else rest

-- Each of them has had its answer.
abbrev pub all_consumed : ℕ → List Subscription → Bool
all_consumed f ss = all (λ s. not (s.flight == f) || s.consumed) ss

-- Without subscriptions, all are consumed.
pub none-all_consumed :
    (f : ℕ) (ss : List Subscription) → subscribers_of f ss ≡ 0 → all_consumed f ss ≡ true
none-all_consumed f [] e = refl
none-all_consumed f (s ∷ ss) e = ground (arith, none-all_consumed f ss)

module _ {ℓ} {T E : Type ℓ} where
  -- What a key stands for is a flight of that key, which may be joined.
  abbrev pub is_listed : Flights T E → Text → Option ℕ → Bool
  is_listed t k none = true
  is_listed t k (some f) =
      ltb f t.next_flight && (text_eq (t.flights f).key k && is_open (t.flights f))

  -- An active flight stands under its key.
  abbrev pub is_reachable : Flights T E → ℕ → Bool
  is_reachable t f =
      not (is_active (t.flights f)) || is_entry f (lookup (t.flights f).key t.entries)

  abbrev pub is_heard : Flights T E → ℕ → Bool
  is_heard t f =
      not (is_finished (t.flights f).state)
      || (was_withdrawn (t.flights f) || all_consumed f t.subscriptions)

  pub record IsCoherent (t : Flights T E) : Type 0 where
    pub counted : (f : ℕ) → (t.flights f).subscribers ≡ subscribers_of f t.subscriptions
    pub unused : (f : ℕ) → (ltb f t.next_flight || (t.flights f).subscribers == 0) ≡ true
    pub listed : (k : Text) → is_listed t k (lookup k t.entries) ≡ true
    pub reachable : (f : ℕ) → is_reachable t f ≡ true
    pub sane : (f : ℕ) → is_sane (t.flights f) ≡ true
    pub heard : (f : ℕ) → is_heard t f ≡ true

  is_listed-with :
      (t : Flights T E) (f : ℕ) (fl : Flight T E) (k : Text) (found : Option ℕ)
      → Confines (t.flights f) fl
      → is_listed t k found ≡ true
      → is_listed (with_flight t f fl) k found ≡ true
  is_listed-with t f fl k none c h = refl
  is_listed-with t f fl k (some g) c h = let e = c.same_key in let o = c.opens in ground arith

  -- A section of one flight keeps the table coherent.
  pub Confines-IsCoherent :
      (t : Flights T E) (f : ℕ) (fl : Flight T E)
      → Confines (t.flights f) fl
      → IsCoherent t
      → IsCoherent (with_flight t f fl)
  Confines-IsCoherent t f fl c i =
      let k = c.same_key in
      let n = c.same_subscribers in
      let o = c.opens in
      let a = c.activates in
      let z = c.finishes in
      let y = c.sane in
      record {
        counted = λ g. ground (arith, i.counted g, n);
        unused = λ g. ground (arith, i.unused g, n);
        listed = λ key. is_listed-with t f fl key (lookup key t.entries) c (i.listed key);
        reachable = λ g. ground (arith, i.reachable g, k);
        sane = λ g. ground (arith, i.sane g, y);
        heard = λ g. ground (arith, i.heard g, i.counted g, none-all_consumed g t.subscriptions);
      }

  -- What a flight may become when its entry is taken away: anything but active.
  pub record Retires (f g : Flight T E) : Type 0 where
    pub same_key : g.key ≡ f.key
    pub same_subscribers : g.subscribers ≡ f.subscribers
    pub sane : is_sane g ≡ true
    pub inactive : is_active g ≡ false
    pub finishes :
        (not (is_finished g.state)
          || (was_withdrawn g
              || (is_finished f.state && not (was_withdrawn f) || f.subscribers == 0)))
        ≡ true

  abbrev pub delisted : Flights T E → ℕ → List (Text × ℕ)
  delisted t f =
      if is_entry f (lookup (t.flights f).key t.entries)
      then remove (t.flights f).key t.entries
      else t.entries

  lookup-delisted :
      (t : Flights T E) (f : ℕ) (k : Text)
      → IsCoherent t
      → (lookup k (delisted t f) ≡ none)
        ⊎ ((g : ℕ) × ((lookup k (delisted t f) ≡ some g)
              × ((lookup k t.entries ≡ some g) × ((g == f) ≡ false))))
  lookup-delisted t f k i =
      let key = (t.flights f).key in
      elim (Option-cases (lookup k t.entries)) [
        | inl e ↦ inl (ground (arith, e, lookup-remove key k t.entries))
        | inr (g, e) ↦ elim (Bool-cases (g == f)) [
          | inl q ↦
              let h : g ≡ f = ground (arith, q) in
              let x : text_eq key k ≡ true = ground (arith, i.listed k, e, h) in
              let y : is_entry f (lookup key t.entries) ≡ true =
                ground (arith, text_eq_iff key k, x, e, h) in
              inl (ground (arith, y, x, lookup-remove key k t.entries))
          | inr q ↦ elim (Bool-cases (text_eq key k)) [
            | inl x ↦
                let y : is_entry f (lookup key t.entries) ≡ false =
                  ground (arith, text_eq_iff key k, x, e, q) in
                inr (g, (ground (arith, y, e), (e, q)))
            | inr x ↦ inr (g, (ground (arith, x, e, lookup-remove key k t.entries), (e, q)))
          ]
        ]
      ]

  is_listed-delisted :
      (t : Flights T E) (f : ℕ) (fs : ℕ → Flight T E)
      → ((g : ℕ) → ((f == g) ≡ true) ⊎ (fs g ≡ t.flights g))
      → (k : Text) → IsCoherent t
      → is_listed (record t { flights = fs; entries = delisted t f }) k (lookup k (delisted t f))
        ≡ true
  is_listed-delisted t f fs same k i = elim (lookup-delisted t f k i) [
    | inl e ↦ rw e refl
    | inr (g, (e, (old, q))) ↦ rw e (ground (arith, same g, i.listed k, old, q))
  ]

  is_reachable-delisted :
      (t : Flights T E) (f g : ℕ)
      → IsCoherent t
      → (f == g) ≡ false
      → (not (is_active (t.flights g)) || is_entry g (lookup (t.flights g).key (delisted t f)))
        ≡ true
  is_reachable-delisted t f g i q =
      let key = (t.flights f).key in
      elim (Bool-cases (is_active (t.flights g))) [
        | inr a ↦ ground (arith, a)
        | inl a ↦ elim (Bool-cases (text_eq key (t.flights g).key)) [
          | inl x ↦
              let e : key ≡ (t.flights g).key =
                ground (arith, text_eq_iff key (t.flights g).key, x) in
              let r : is_entry g (lookup (t.flights g).key t.entries) ≡ true =
                ground (arith, i.reachable g, a) in
              let n : is_entry f (lookup key t.entries) ≡ false = ground (arith, r, e, q) in
              ground (arith, n, i.reachable g)
          | inr x ↦ ground (arith, i.reachable g, x, lookup-remove key (t.flights g).key t.entries)
        ]
      ]

  pub Retires-IsCoherent :
      (t : Flights T E) (f : ℕ) (fs : ℕ → Flight T E)
      → Retires (t.flights f) (fs f)
      → ((g : ℕ) → ((f == g) ≡ true) ⊎ (fs g ≡ t.flights g))
      → IsCoherent t
      → IsCoherent (record t { flights = fs; entries = delisted t f })
  Retires-IsCoherent t f fs c same i =
      let k = c.same_key in
      let n = c.same_subscribers in
      let a = c.inactive in
      let z = c.finishes in
      let y = c.sane in
      record {
        counted = λ g. ground (arith, i.counted g, same g, n);
        unused = λ g. ground (arith, i.unused g, same g, n);
        listed = λ key. is_listed-delisted t f fs same key i;
        reachable = λ g. elim (Bool-cases (f == g)) [
          | inl q ↦ let h : g ≡ f = ground (arith, q) in rw h (ground (arith, a))
          | inr q ↦ ground (arith, q, same g, is_reachable-delisted t f g i q)
        ];
        sane = λ g. ground (arith, i.sane g, same g, y);
        heard = λ g.
            ground (arith, i.heard g, same g, z, i.counted g, none-all_consumed g t.subscriptions);
      }
