-- ===== src/Memory/Store/Stale.antt =====
-- src/memory/origin.rs: a mutation of a key fences off the factories that started before it.
use amalgam.Prelude.{ℕ, zero, suc, ◌≡◌, Bool, true, not, some, List, [], ◌∷◌, arith, all}
use amalgam.Prelude.Text.{Text, text_Eq}
use amalgam.Time.Timestamp.{Timestamp}
use amalgam.Memory.Origins.{Origins, matches}
use amalgam.Memory.Store.Session.{MemoryOrigin, Session, origin_at}
use amalgam.Memory.Store.Fence.{is_fenced}
use amalgam.Memory.Store.Reach.{Reach, Reach-IsSound, is_honest}

origin_at-all :
    (p : MemoryOrigin → Bool) (n : ℕ) (os : List MemoryOrigin) (o : MemoryOrigin)
    → all p os ≡ true
    → origin_at n os ≡ some o
    → p o ≡ true
origin_at-all p n [] o h e = ground arith
origin_at-all p zero (x ∷ os) o h e = ground arith
origin_at-all p (suc n) (x ∷ os) o h e = ground (arith, origin_at-all p n os o)

module _ {ℓ} {V : Type ℓ} where
  -- In every reachable state, an outstanding origin still matches the store exactly if neither its
  -- captured revision nor its captured generation has been passed.
  pub matches-is_fenced :
      (s : Session V) (n : ℕ) (o : MemoryOrigin)
      → Reach s
      → origin_at n s.outstanding ≡ some o
      → matches s.store.origins o.snapshot s.store.generation ≡ not (is_fenced o.snapshot s.store)
  unfolding matches
  matches-is_fenced s n o reach e =
      let v = Reach-IsSound s reach in
      let b = v.epoch in
      ground (arith, b, origin_at-all (is_honest s.store) n s.outstanding o v.honest e)
