-- ===== src/Tags/Tag.antt =====
-- src/tags.rs: tags, nonblank by construction.
pub mod Laws
use amalgam.Prelude.{Bool, List, [], ◌∷◌, if◌then◌else◌}
use amalgam.Prelude.Text.{Text, trim, is_empty, text_eq}
use amalgam.Prelude.Result.{Result, ok, err, ◌>>=◌}

pub data TagError : Type 0 where
  blank : TagError

pub record Tag : Type 0 where
  pub text : Text

unfoldable pub new : Text → Result Tag TagError
new tag = if is_empty (trim tag) then err blank else ok (record { text = tag })

abbrev pub tag_eq : Tag → Tag → Bool
tag_eq a b = text_eq a.text b.text

-- The first blank tag rejects the whole collection.
unfoldable pub try_collect_tags : List Text → Result (List Tag) TagError
try_collect_tags [] = ok []
try_collect_tags (t ∷ ts) = do tag ← new t; tags ← try_collect_tags ts; ok (tag ∷ tags)

abbrev keep : Result Tag TagError → List Tag → List Tag
keep (ok tag) rest = tag ∷ rest
keep (err e) rest = rest

-- The legacy adapter drops blank tags (and logs each).
pub collect_tags : List Text → List Tag
collect_tags [] = []
collect_tags (t ∷ ts) = keep (new t) (collect_tags ts)
