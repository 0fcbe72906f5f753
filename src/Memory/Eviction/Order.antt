-- ===== src/Memory/Eviction/Order.antt =====
-- src/memory.rs: the order of eviction, and that the candidates are sorted by it.
use amalgam.Prelude.{◌≡◌, refl, Bool, true, false, List, [], ◌∷◌, ◌&&◌, arith, all}
use amalgam.Prelude.Text.{Text, text_leb}
use amalgam.Memory.Eviction.{EvictionCandidate, precedes, place, sort}

text_leb_total : (s t : Text) → text_leb s t ≡ false → text_leb t s ≡ true
text_leb_total [] t h = ground arith
text_leb_total (c ∷ s) [] h = refl
text_leb_total (c ∷ s) (d ∷ t) h = ground (arith, text_leb_total s t)

text_leb_trans : (s t u : Text) → text_leb s t ≡ true → text_leb t u ≡ true → text_leb s u ≡ true
text_leb_trans [] t u h k = refl
text_leb_trans (c ∷ s) [] u h k = ground arith
text_leb_trans (c ∷ s) (d ∷ t) [] h k = ground arith
text_leb_trans (c ∷ s) (d ∷ t) (e ∷ u) h k = ground (arith, text_leb_trans s t u)

pub precedes_total : (a b : EvictionCandidate) → precedes a b ≡ false → precedes b a ≡ true
unfolding precedes
precedes_total a b h = ground (arith, text_leb_total a.key b.key)

pub precedes_trans :
    (a b c : EvictionCandidate) → precedes a b ≡ true → precedes b c ≡ true → precedes a c ≡ true
unfolding precedes
precedes_trans a b c h k = ground (arith, text_leb_trans a.key b.key c.key)

-- Each candidate precedes those that follow it.
abbrev pub ordered : List EvictionCandidate → Bool
ordered [] = true
ordered (c ∷ cs) = all (precedes c) cs && ordered cs

all-precedes :
    (a b : EvictionCandidate) (cs : List EvictionCandidate)
    → precedes a b ≡ true
    → all (precedes b) cs ≡ true
    → all (precedes a) cs ≡ true
all-precedes a b [] h k = refl
all-precedes a b (c ∷ cs) h k = ground (arith, all-precedes a b cs, precedes_trans a b c)

all-place :
    (p : EvictionCandidate → Bool) (c : EvictionCandidate) (cs : List EvictionCandidate)
    → all p (place c cs) ≡ (p c && all p cs)
unfolding place
all-place p c [] = ground arith
all-place p c (d ∷ ds) = ground (arith, all-place p c ds)

ordered-place :
    (c : EvictionCandidate) (cs : List EvictionCandidate)
    → ordered cs ≡ true
    → ordered (place c cs) ≡ true
unfolding place
ordered-place c [] h = refl
ordered-place c (d ∷ ds) h = ground (
  arith,
  ordered-place c ds,
  all-place (precedes d) c ds,
  precedes_total c d,
  all-precedes c d ds,
)

pub ordered-sort : (cs : List EvictionCandidate) → ordered (sort cs) ≡ true
unfolding sort
ordered-sort [] = refl
ordered-sort (c ∷ cs) = ordered-place c (sort cs) (ordered-sort cs)

pub all-sort :
    (p : EvictionCandidate → Bool) (cs : List EvictionCandidate) → all p (sort cs) ≡ all p cs
unfolding sort
all-sort p [] = refl
all-sort p (c ∷ cs) = ground (arith, all-sort p cs, all-place p c (sort cs))
