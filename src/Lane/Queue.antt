-- ===== src/Lane/Queue.antt =====
-- The waiters of a lane as a list of identities: membership, absence of repetition, deletion of the
-- first occurrence (`VecDeque::position` and `remove`).
use amalgam.Prelude.{
  ℕ, ◌≡◌, refl, Bool, true, false, not, List, [], ◌∷◌, ◌++◌, ◌==◌, ◌&&◌, ◌||◌, arith, if◌then◌else◌,
}

abbrev pub is_empty : List ℕ → Bool
is_empty [] = true
is_empty (w ∷ ws) = false

abbrev pub delete : ℕ → List ℕ → List ℕ
delete w [] = []
delete w (v ∷ vs) = if v == w then vs else v ∷ delete w vs

abbrev pub mem : ℕ → List ℕ → Bool
mem w [] = false
mem w (v ∷ vs) = v == w || mem w vs

abbrev pub distinct : List ℕ → Bool
distinct [] = true
distinct (v ∷ vs) = not (mem v vs) && distinct vs

pub mem-append : (w v : ℕ) (vs : List ℕ) → mem w (vs ++ v ∷ []) ≡ (mem w vs || v == w)
mem-append w v [] = ground arith
mem-append w v (u ∷ vs) = ground (arith, mem-append w v vs)

pub distinct-append :
    (v : ℕ) (vs : List ℕ) → mem v vs ≡ false → distinct vs ≡ true → distinct (vs ++ v ∷ []) ≡ true
distinct-append v [] h d = refl
distinct-append v (u ∷ vs) h d = ground (arith, mem-append u v vs, distinct-append v vs)

pub mem-delete :
    (w v : ℕ) (vs : List ℕ) → distinct vs ≡ true → mem w (delete v vs) ≡ (mem w vs && not (v == w))
mem-delete w v [] d = refl
mem-delete w v (u ∷ vs) d = ground (arith, mem-delete w v vs)

pub distinct-delete : (v : ℕ) (vs : List ℕ) → distinct vs ≡ true → distinct (delete v vs) ≡ true
distinct-delete v [] d = refl
distinct-delete v (u ∷ vs) d = ground (arith, mem-delete u v vs, distinct-delete v vs)

pub is_empty-append : (v : ℕ) (vs : List ℕ) → is_empty (vs ++ v ∷ []) ≡ false
is_empty-append v [] = refl
is_empty-append v (u ∷ vs) = refl
