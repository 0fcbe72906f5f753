-- ===== src/Tags/Tag/Laws.antt =====
-- src/tags.rs: which raw tags are refused, and how the two collectors agree.
use mathlib.Core.List.{reverse, reverse-cons}
use amalgam.Prelude.{
  ◌≡◌, refl, ◌∙◌, Bool, true, false, ◌⊎◌, inl, inr, List, [], ◌∷◌, ◌++◌, ◌&&◌, arith, ℕ, all, any,
  Bool-cases, if◌then◌else◌, map,
}
use amalgam.Prelude.Text.{Text, trim, trim_start, trim_end, is_empty, is_whitespace}
use amalgam.Prelude.Result.{ok, err}
use amalgam.Tags.Tag.{blank, new, try_collect_tags, collect_tags}

is_empty-trim_start : (s : Text) → is_empty (trim_start s) ≡ all is_whitespace s
unfolding trim_start
is_empty-trim_start [] = refl
is_empty-trim_start (c ∷ s) = elim (Bool-cases (is_whitespace c)) [
  | inl e ↦ rw (e, is_empty-trim_start s)
  | inr e ↦ rw e
]

all-trim_start : (s : Text) → all is_whitespace (trim_start s) ≡ all is_whitespace s
unfolding trim_start
all-trim_start [] = refl
all-trim_start (c ∷ s) = elim (Bool-cases (is_whitespace c)) [
  | inl e ↦ rw (e, all-trim_start s)
  | inr e ↦ rw e (rw e)
]

all-append : (p : ℕ → Bool) (s t : Text) → all p (s ++ t) ≡ (all p s && all p t)
all-append p [] t = refl
all-append p (c ∷ s) t = ground (arith, all-append p s t)

all-reverse : (p : ℕ → Bool) (s : Text) → all p (reverse s) ≡ all p s
all-reverse p [] = refl
all-reverse p (c ∷ s) =
    rw (reverse-cons c s) (ground (arith, all-append p (reverse s) (c ∷ []), all-reverse p s))

is_empty-append : (s : Text) (c : ℕ) → is_empty (s ++ c ∷ []) ≡ false
is_empty-append [] c = refl
is_empty-append (d ∷ s) c = refl

is_empty-reverse : (s : Text) → is_empty (reverse s) ≡ is_empty s
is_empty-reverse [] = refl
is_empty-reverse (c ∷ s) = rw (reverse-cons c s) (is_empty-append (reverse s) c)

pub is_empty-trim : (s : Text) → is_empty (trim s) ≡ all is_whitespace s
unfolding trim trim_end
is_empty-trim s =
    is_empty-reverse (trim_start (reverse (trim_start s)))
    ∙ is_empty-trim_start (reverse (trim_start s))
    ∙ all-reverse is_whitespace (trim_start s)
    ∙ all-trim_start s

-- A raw tag is refused exactly if all its characters are white space; an accepted one keeps its
-- spelling.
pub new_cases :
    (t : Text) → new t ≡ (if all is_whitespace t then err blank else ok (record { text = t }))
unfolding new
new_cases t = rw (is_empty-trim t)

-- The validating collector refuses a collection exactly if some tag in it is blank, and otherwise
-- delivers what the legacy one collects, a tag for each text in order.
pub try_collect_tags_cases :
    (ts : List Text)
    → (try_collect_tags ts
        ≡ (if any (all is_whitespace) ts then err blank else ok (collect_tags ts)))
      × ((any (all is_whitespace) ts ≡ true) ⊎ (map (λ tag. tag.text) (collect_tags ts) ≡ ts))
unfolding try_collect_tags collect_tags
try_collect_tags_cases [] = (refl, inr refl)
try_collect_tags_cases (t ∷ ts) = ground (arith, new_cases t, try_collect_tags_cases ts)
