-- ===== src/Prelude/Maps.antt =====
-- Association lists with distinct keys: their keys, and sums over their values.
use mathlib.Core.Path.{◌≡◌, refl}
use mathlib.Core.Bool.{Bool, true, false, ◌&&◌, ◌||◌}
use mathlib.Core.Option.{Option, none, some}
use mathlib.Core.List.{List, [], ◌∷◌}
use Prim.Native.Nat.{ℕ, ◌+◌}
use native.Mathlib.Omega.{arith}
use amalgam.Prelude.Lists.{length}
use amalgam.Prelude.Text.{Text, text_eq}
use amalgam.Prelude.Assoc.{Eq, lookup, insert, remove, lookup-insert, lookup-remove}

abbrev pub is_none {ℓ} : {A : Type ℓ} → Option A → Bool
is_none none = true
is_none (some _) = false

-- Whether a key is in a list of keys.
abbrev pub listed : Text → List Text → Bool
listed k [] = false
listed k (j ∷ js) = text_eq j k || listed k js

module _ {ℓ κ} {K : Type ℓ} {V : Type κ} where
  abbrev pub total : (V → ℕ) → List (K × V) → ℕ
  total w [] = 0
  total w ((k, v) ∷ m) = w v + total w m

module _ {ℓ κ} {K : Type ℓ} {V : Type κ} ⦃e : Eq K⦄ where
  abbrev pub distinct : List (K × V) → Bool
  distinct [] = true
  distinct ((k, v) ∷ m) = is_none (lookup k m) && distinct m

  pub remove-miss : (k : K) (m : List (K × V)) → lookup k m ≡ none → remove k m ≡ m
  unfolding lookup remove
  remove-miss k [] h = refl
  remove-miss k ((j, v) ∷ m) h = ground (arith, remove-miss k m)

  pub distinct-remove :
      (k : K) (m : List (K × V)) → distinct m ≡ true → distinct (remove k m) ≡ true
  unfolding remove
  distinct-remove k [] d = refl
  distinct-remove k ((j, v) ∷ m) d = ground (arith, distinct-remove k m, lookup-remove k j m)

  pub distinct-insert :
      (k : K) (v : V) (m : List (K × V)) → distinct m ≡ true → distinct (insert k v m) ≡ true
  unfolding insert lookup
  distinct-insert k v [] d = refl
  distinct-insert k v ((j, w) ∷ m) d =
      ground (arith, distinct-insert k v m, lookup-insert k j v m, e.beq_iff j k, e.beq_iff k j)

  pub total-remove :
      (w : V → ℕ) (k : K) (m : List (K × V)) (v : V)
      → distinct m ≡ true
      → lookup k m ≡ some v
      → (total w (remove k m) + w v ≡ total w m) × (length (remove k m) + 1 ≡ length m)
  unfolding lookup remove
  total-remove w k [] v d h = ground arith
  total-remove w k ((j, u) ∷ m) v d h =
      ground (arith, total-remove w k m v, remove-miss k m, e.beq_iff j k)

  pub total-insert_new :
      (w : V → ℕ) (k : K) (v : V) (m : List (K × V))
      → lookup k m ≡ none
      → (total w (insert k v m) ≡ total w m + w v) × (length (insert k v m) ≡ length m + 1)
  unfolding lookup insert
  total-insert_new w k v [] h = ground arith
  total-insert_new w k v ((j, u) ∷ m) h = ground (arith, total-insert_new w k v m)

  pub total-insert_same :
      (w : V → ℕ) (k : K) (v : V) (m : List (K × V)) (u : V)
      → distinct m ≡ true
      → lookup k m ≡ some u
      → w v ≡ w u
      → (total w (insert k v m) ≡ total w m) × (length (insert k v m) ≡ length m)
  unfolding lookup insert
  total-insert_same w k v [] u d h e = ground arith
  total-insert_same w k v ((j, x) ∷ m) u d h e = ground (arith, total-insert_same w k v m u)
