-- ===== src/Memory/Store/Registry.antt =====
-- src/memory/origin.rs: the registered revisions are those of the outstanding origins, with their
-- count.
use amalgam.Prelude.{
  ℕ, zero, suc, ◌+◌, ◌-◌, ◌≡◌, refl, Bool, true, false, not, Option, none, some, List, [], ◌∷◌,
  ◌==◌, ◌&&◌, ◌||◌, arith, all, any, ltb, Bool-cases, Option-cases, if◌then◌else◌, ◌⊎◌, inl, inr,
}
use amalgam.Prelude.Assoc.{lookup, insert, lookup-insert, lookup-remove}
use amalgam.Prelude.Text.{Text, text_eq, text_eq_iff, text_Eq}
use amalgam.Memory.Origins.{
  ActiveRevision, Origins, RevisionSnapshot, upgraded, chosen, registered, forget, forget_over,
}
use amalgam.Memory.Retention.{Moment}
use amalgam.Memory.Store.Session.{MemoryOrigin, owned, origin_at, without}

-- How many of the origins are of a key.
abbrev pub count : Text → List MemoryOrigin → ℕ
count k [] = 0
count k (o ∷ os) = if text_eq o.key k then 1 + count k os else count k os

-- The origins of a key share one revision.
abbrev pub share : Text → ℕ → List MemoryOrigin → Bool
share k revision os = all (λ o. not (text_eq o.key k) || o.snapshot.revision == revision) os

-- What is registered for a key agrees with its outstanding origins.
abbrev pub agrees : Text → List MemoryOrigin → Option ActiveRevision → Bool
agrees k os none = count k os == 0
agrees k os (some a) = a.snapshots == count k os && (ltb 0 a.snapshots && share k a.revision os)

pub holds_revision : ℕ → List MemoryOrigin → Bool
holds_revision revision os = any (λ o. o.snapshot.revision == revision) os

-- A registered revision is held.
pub share-held :
    (k : Text) (revision : ℕ) (os : List MemoryOrigin)
    → ltb 0 (count k os) ≡ true
    → share k revision os ≡ true
    → any (λ o. o.snapshot.revision == revision) os ≡ true
share-held k revision [] h s = ground arith
share-held k revision (o ∷ os) h s = ground (arith, share-held k revision os)

share-unheld :
    (k : Text) (revision : ℕ) (os : List MemoryOrigin) → count k os ≡ 0 → share k revision os ≡ true
share-unheld k revision [] h = refl
share-unheld k revision (o ∷ os) h = ground (arith, share-unheld k revision os)

origin_at-agrees :
    (n : ℕ) (os : List MemoryOrigin) (o : MemoryOrigin) (revision : ℕ)
    → origin_at n os ≡ some o
    → (ltb 0 (count o.key os) ≡ true)
      × ((share o.key revision os ≡ false) ⊎ (o.snapshot.revision ≡ revision))
origin_at-agrees n [] o revision e = ground arith
origin_at-agrees zero (x ∷ os) o revision e = ground (arith, text_eq_iff x.key o.key)
origin_at-agrees (suc n) (x ∷ os) o revision e = ground (arith, origin_at-agrees n os o revision)

-- An outstanding origin is of the registered revision, which is held.
pub agrees-origin_at :
    (n : ℕ) (os : List MemoryOrigin) (o : MemoryOrigin) (found : Option ActiveRevision)
    → origin_at n os ≡ some o
    → agrees o.key os found ≡ true
    → (a : ActiveRevision) × ((found ≡ some a) × (a.revision ≡ o.snapshot.revision))
agrees-origin_at n os o none e g = ground (arith, origin_at-agrees n os o 0 e)
agrees-origin_at n os o (some a) e g =
    (a, (refl, ground (arith, origin_at-agrees n os o a.revision e)))

count-without :
    (n : ℕ) (k : Text) (os : List MemoryOrigin) (o : MemoryOrigin)
    → origin_at n os ≡ some o
    → count k os ≡ (if text_eq o.key k then 1 + count k (without n os) else count k (without n os))
count-without n k [] o e = ground arith
count-without zero k (x ∷ os) o e = ground arith
count-without (suc n) k (x ∷ os) o e = ground (arith, count-without n k os o)

share-without :
    (n : ℕ) (k : Text) (revision : ℕ) (os : List MemoryOrigin)
    → share k revision os ≡ true
    → share k revision (without n os) ≡ true
share-without n k revision [] s = refl
share-without zero k revision (x ∷ os) s = ground arith
share-without (suc n) k revision (x ∷ os) s = ground (arith, share-without n k revision os)

pub without-none : (n : ℕ) (os : List MemoryOrigin) → origin_at n os ≡ none → without n os ≡ os
without-none n [] e = refl
without-none zero (x ∷ os) e = ground arith
without-none (suc n) (x ∷ os) e = ground (arith, without-none n os)

unfoldable pub IsRegistered : Origins → List MemoryOrigin → Type 0
IsRegistered o os = (k : Text) → agrees k os (lookup k o.active) ≡ true

-- The revision that a capture takes is the registered one, whenever an origin of the key is held.
abbrev found_revision : ℕ → Option ActiveRevision → Bool
found_revision revision none = true
found_revision revision (some a) = a.revision == revision

chosen-found_revision :
    (at : Moment) (o : Origins) (os : List MemoryOrigin) (key : Text) (provided : Option ℕ)
    (found : Option ActiveRevision)
    → agrees key os found ≡ true
    → found_revision (chosen o (upgraded (owned at os) found) provided).1 found ≡ true
chosen-found_revision at o os key provided none g = refl
chosen-found_revision at o os key provided (some a) g =
    let h : any (λ o. o.snapshot.revision == a.revision) os ≡ true =
      ground (arith, g, share-held key a.revision os) in
    let w : owned at os a.revision ≡ true = ground arith in rw w (ground arith)

-- A captured origin joins those of its key.
agrees-registered :
    (key k : Text) (os : List MemoryOrigin) (s : RevisionSnapshot) (found : Option ActiveRevision)
    (m : List (Text × ActiveRevision))
    → lookup key m ≡ found
    → found_revision s.revision found ≡ true
    → agrees key os found ≡ true
    → agrees k os (lookup k m) ≡ true
    → agrees k
        (record { key = key; snapshot = s } ∷ os)
        (lookup k (insert key (registered found s.revision) m))
      ≡ true
agrees-registered key k os s none m e f g h = ground (
  arith,
  lookup-insert key k (registered none s.revision) m,
  text_eq_iff key k,
  share-unheld key s.revision os,
)
agrees-registered key k os s (some a) m e f g h =
    ground (arith, lookup-insert key k (registered (some a) s.revision) m, text_eq_iff key k)

forget_over-agrees :
    (n : ℕ) (o : Origins) (os : List MemoryOrigin) (x : MemoryOrigin) (a : ActiveRevision)
    (k : Text)
    → origin_at n os ≡ some x
    → a.revision ≡ x.snapshot.revision
    → lookup x.key o.active ≡ some a
    → agrees x.key os (lookup x.key o.active) ≡ true
    → agrees k os (lookup k o.active) ≡ true
    → agrees k (without n os) (lookup k (forget_over o x.key x.snapshot.revision (some a)).active)
      ≡ true
forget_over-agrees n o os x a k e r f g h =
    let c = count-without n k os x e in
    let d = count-without n x.key os x e in
    let s = share-without n x.key a.revision os in
    let fewer = record a { snapshots = a.snapshots - 1 } in
    let t : text_eq x.key x.key ≡ true = ground (arith, text_eq_iff x.key x.key) in
    elim (Bool-cases (text_eq x.key k)) [
      | inl q ↦ ground (
        arith,
        lookup-insert x.key k fewer o.active,
        lookup-remove x.key k o.active,
        text_eq_iff x.key k,
      )
      | inr q ↦ elim (Option-cases (lookup k o.active)) [
        | inl z ↦
            ground (arith, lookup-insert x.key k fewer o.active, lookup-remove x.key k o.active)
        | inr (b, z) ↦ ground (
          arith,
          lookup-insert x.key k fewer o.active,
          lookup-remove x.key k o.active,
          share-without n k b.revision os,
        )
      ]
    ]

pub forget-IsRegistered :
    (n : ℕ) (o : Origins) (os : List MemoryOrigin) (x : MemoryOrigin)
    → origin_at n os ≡ some x
    → IsRegistered o os
    → IsRegistered (forget o x.key x.snapshot.revision) (without n os)
unfolding IsRegistered forget
forget-IsRegistered n o os x e i k =
    let (a, (f, r)) = agrees-origin_at n os x (lookup x.key o.active) e (i x.key) in
    rw f (forget_over-agrees n o os x a k e r f (i x.key) (i k))

pub capture_from-IsRegistered :
    (at : Moment) (o : Origins) (os : List MemoryOrigin) (key : Text) (provided : Option ℕ)
    (s : RevisionSnapshot)
    → IsRegistered o os
    → s.revision ≡ (chosen o (upgraded (owned at os) (lookup key o.active)) provided).1
    → IsRegistered
        (record (chosen o (upgraded (owned at os) (lookup key o.active)) provided).0 {
          active = insert key (registered (lookup key o.active) s.revision) o.active;
        })
        (record { key = key; snapshot = s } ∷ os)
unfolding IsRegistered
capture_from-IsRegistered at o os key provided s i e k =
    agrees-registered key k os s (lookup key o.active) o.active refl
      (rw e (chosen-found_revision at o os key provided (lookup key o.active) (i key))) (i key)
      (i k)
