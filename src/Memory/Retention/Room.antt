-- ===== src/Memory/Retention/Room.antt =====
-- src/memory.rs: once its victims are removed, the store has room for the candidate.
use amalgam.Prelude.{
  ℕ, ◌-◌, ◌≤◌, ◌≡◌, refl, true, List, [], ◌∷◌, arith, all, Option-cases, inl, inr,
}
use amalgam.Prelude.Result.{ok, Result-cases}
use amalgam.Prelude.Assoc.{lookup, remove, lookup-remove}
use amalgam.Prelude.Maps.{distinct, total, distinct-remove, total-remove}
use amalgam.Prelude.Text.{Text, text_eq_iff, text_Eq}
use amalgam.Memory.{MemoryLimits, RetirementReason}
use amalgam.Memory.Eviction.{
  Stored, entry_weight, EvictionCandidate, ProjectedCapacity, old_weight, projection,
  projection_fits, take_victims,
}
use amalgam.Memory.Eviction.Victims.{unlisted, unique, backed}
use amalgam.Memory.Retention.{Retention, take, remove_keys}
use amalgam.Memory.Retention.Weights.{IsWeighed, take-IsWeighed, lookup-take}

abbrev minus : ProjectedCapacity → EvictionCandidate → ProjectedCapacity
minus p c = record { entries = p.entries - 1; weight = p.weight - c.weight }

module _ {ℓ} {V : Type ℓ} where
  abbrev pub projected : Retention V → Text → ℕ → ProjectedCapacity
  projected r key w = projection r.entries r.weight key w

  old_weight-le :
      (k : Text) (m : List (Text × Stored V))
      → distinct m ≡ true
      → old_weight (lookup k m) ≤ total entry_weight m
  old_weight-le k m d = elim (Option-cases (lookup k m)) [
    | inl e ↦ rw e (ground arith)
    | inr (s, e) ↦ let t = total-remove entry_weight k m s d e in rw e (ground arith)
  ]

  projected-take :
      (r : Retention V) (key : Text) (w : ℕ) (c : EvictionCandidate)
      → IsWeighed r
      → backed key r.entries c ≡ true
      → projected (take r c.key).0 key w ≡ minus (projected r key w) c
  unfolding take projection
  projected-take r key w c v b = elim (Option-cases (lookup c.key r.entries)) [
    | inl e ↦ ground arith
    | inr (s, e) ↦
        let t = total-remove entry_weight c.key r.entries s v.keyed e in
        let d = distinct-remove c.key r.entries v.keyed in
        let o = old_weight-le key (remove c.key r.entries) d in
        let x = v.weighed in rw e (ground (arith, lookup-remove c.key key r.entries))
  ]

  backed-take :
      (r : Retention V) (key k : Text) (cs : List EvictionCandidate)
      → unlisted k cs ≡ true
      → all (backed key r.entries) cs ≡ true
      → all (backed key (take r k).0.entries) cs ≡ true
  backed-take r key k [] u b = refl
  backed-take r key k (c ∷ cs) u b = ground (
    arith,
    backed-take r key k cs,
    lookup-take r k c.key,
    text_eq_iff k c.key,
    text_eq_iff c.key k,
  )

  pub take_victims-fits :
      (reason : Stored V → RetirementReason) (limits : MemoryLimits) (r : Retention V) (key : Text)
      (w : ℕ) (cs : List EvictionCandidate) (ks : List Text)
      → IsWeighed r
      → all (backed key r.entries) cs ≡ true
      → unique cs ≡ true
      → take_victims limits (projected r key w) cs ≡ ok ks
      → projection_fits (projected (remove_keys reason ks r).0 key w) limits ≡ true
  unfolding take_victims remove_keys
  take_victims-fits reason limits r key w [] ks v b u e = ground arith
  take_victims-fits reason limits r key w (c ∷ cs) ks v b u e =
      let left = (take r c.key).0 in
      let p = projected-take r key w c v (ground (arith, b)) in
      let next = take_victims limits (minus (projected r key w) c) cs in
      elim (Result-cases next) [
        | inl (js, q) ↦
            let ih =
              take_victims-fits reason limits left key w cs js (take-IsWeighed r c.key v)
                (backed-take r key c.key cs (ground (arith, u)) (ground (arith, b)))
                (ground (arith, u)) (rw p q) in
            ground arith
        | inr (why, q) ↦ ground arith
      ]
