-- ===== src/Tags/Registry/Laws.antt =====
-- src/tags.rs: invalidation is never lost, never weaker than asked for, and bounded in memory.
use mathlib.Core.Option
use amalgam.Prelude.{
  ℕ, ◌≤◌, ◌≡◌, refl, inl, inr, Bool, true, false, Option, none, some, List, [], ◌∷◌, arith, any,
  Bool-cases, Option-cases, ◌||◌, ◌&&◌,
}
use amalgam.Prelude.Int.{◌≤ℤ◌, leb_ℤ}
use amalgam.Prelude.Assoc.{lookup, lookup-insert}
use amalgam.Time.Timestamp.{Timestamp}
use amalgam.Options.Values.{RemoveByTagBehavior}
use amalgam.Tags.Tag.{Tag, tag_eq}
use amalgam.Tags.Marker.{
  MarkerKind, tag, clear_expire, clear_remove, MarkerVersion, StoredMarker, tag_Eq, tag_eq_iff,
}
use amalgam.Tags.Registry.{
  TagVerdict, valid, expire, remove, MarkerState, read, raise_to, write, max_value, retain_after,
  compact, covers, tagged, judge, by_tag,
}

-- Every tombstone is at most the bound.
abbrev pub AllLe : MarkerVersion → List (Tag × MarkerVersion) → Type 0
AllLe b [] = Unit {0}
AllLe b ((t, v) ∷ m) = (v ≤ℤ b) × AllLe b m

AllLe-mono : (a b : MarkerVersion) (m : List (Tag × MarkerVersion)) → a ≤ℤ b → AllLe a m → AllLe b m
AllLe-mono a b [] h p = tt
AllLe-mono a b ((t, v) ∷ m) h p = (omega (arith, p.0), AllLe-mono a b m h p.1)

max_value-AllLe :
    (m : List (Tag × MarkerVersion)) (d : MarkerVersion) → AllLe (Option.get_or (max_value m) d) m
unfolding max_value
max_value-AllLe [] d = tt
max_value-AllLe ((t, v) ∷ m) d = (
  ground arith,
  AllLe-mono (Option.get_or (max_value m) v) (Option.get_or (max_value ((t, v) ∷ m)) d) m
      (ground arith) (max_value-AllLe m v),
)

lookup-le :
    (t : Tag) (b : MarkerVersion) (m : List (Tag × MarkerVersion)) {v : MarkerVersion}
    → AllLe b m
    → lookup t m ≡ some v
    → v ≤ℤ b
unfolding lookup
lookup-le t b [] p h = absurd (ground arith)
lookup-le t b ((u, x) ∷ m) p h = elim (Bool-cases (tag_eq u t)) [
  | inl e ↦ ground arith
  | inr e ↦ lookup-le t b m p.1 (rw e at h)
]

-- Compaction leaves no tombstone behind.
pub retain_after-nil :
    (b : MarkerVersion) (m : List (Tag × MarkerVersion)) → AllLe b m → retain_after b m ≡ []
unfolding retain_after
retain_after-nil b [] p = refl
retain_after-nil b ((u, x) ∷ m) p = ground (arith, retain_after-nil b m p.1)

any_mono :
    (p q : Tag → Bool) (ts : List Tag)
    → ((t : Tag) → p t ≡ true → q t ≡ true)
    → any p ts ≡ true
    → any q ts ≡ true
any_mono p q [] h e = e
any_mono p q (t ∷ ts) h e = ground (arith, h t, any_mono p q ts h)

any-false : (p : Tag → Bool) (ts : List Tag) → ((t : Tag) → p t ≡ false) → any p ts ≡ false
any-false p [] h = refl
any-false p (t ∷ ts) h = ground (arith, h t, any-false p ts h)

-- How severe a verdict is.
abbrev pub rank : TagVerdict → ℕ
rank valid = 0
rank expire = 1
rank remove = 2

-- The bound of all tombstones that `compact` uses.
abbrev pub fence_of : MarkerState → MarkerVersion → MarkerVersion
fence_of s version = raise_to s.remove_all (Option.get_or (max_value s.tags) version)

pub fence-AllLe : (s : MarkerState) (version : MarkerVersion) → AllLe (fence_of s version) s.tags
fence-AllLe s version =
    AllLe-mono (Option.get_or (max_value s.tags) version) (fence_of s version) s.tags (ground arith)
      (max_value-AllLe s.tags version)

tagged-fence :
    (s : MarkerState) (version : MarkerVersion) (created : Timestamp) (ts : List Tag)
    → tagged s created ts ≡ true
    → leb_ℤ created (fence_of s version) ≡ true
tagged-fence s version created [] h = absurd (ground arith)
tagged-fence s version created (t ∷ ts) h = elim (Option-cases (lookup t s.tags)) [
  | inl e ↦ tagged-fence s version created ts (rw e at h)
  | inr (v, e) ↦
      let le = lookup-le t (fence_of s version) s.tags (fence-AllLe s version) e in
      ground (arith, tagged-fence s version created ts)
]

by_tag-rank : (b : RemoveByTagBehavior) → (1 ≤ rank (by_tag b)) × (rank (by_tag b) ≤ 2)
by_tag-rank RemoveByTagBehavior.expire = (omega arith, omega arith)
by_tag-rank RemoveByTagBehavior.remove = (omega arith, omega arith)

-- Compacting makes no verdict milder.
pub compact-rank :
    (s : MarkerState) (m : StoredMarker) (created : Timestamp) (ts : List Tag)
    (b : RemoveByTagBehavior)
    → rank (judge s created ts b) ≤ rank (judge (compact s m).0 created ts b)
unfolding compact judge
compact-rank s m created ts b = ground (arith, tagged-fence s m.version created ts, by_tag-rank b)

-- The state as `advance` writes it, before any compaction.
abbrev pub written : MarkerState → MarkerKind → MarkerVersion → MarkerState
written s kind candidate = write s kind (raise_to (read s kind) candidate)

covers-raise :
    (old : Option MarkerVersion) (candidate : MarkerVersion) (created : Timestamp)
    → covers (some (raise_to old candidate)) created
      ≡ (covers old created || leb_ℤ created candidate)
covers-raise none candidate created = refl
covers-raise (some old) candidate created = ground arith

covers-written :
    (s : MarkerState) (t u : Tag) (candidate : MarkerVersion) (created : Timestamp)
    → covers (lookup u (written s (tag t) candidate).tags) created
      ≡ (covers (lookup u s.tags) created || (tag_eq t u && leb_ℤ created candidate))
unfolding read
covers-written s t u candidate created = ground (
  arith,
  lookup-insert t u (raise_to (lookup t s.tags) candidate) s.tags,
  covers-raise (lookup t s.tags) candidate created,
  tag_eq_iff t u,
)

tagged-written :
    (s : MarkerState) (t : Tag) (candidate : MarkerVersion) (created : Timestamp) (ts : List Tag)
    → tagged (written s (tag t) candidate) created ts
      ≡ (tagged s created ts || (any (tag_eq t) ts && leb_ℤ created candidate))
tagged-written s t candidate created [] = refl
tagged-written s t candidate created (u ∷ ts) =
    ground (arith, covers-written s t u candidate created, tagged-written s t candidate created ts)

-- The entries that a marker is about.
abbrev pub concerns : MarkerKind → List Tag → Bool
concerns (tag t) ts = any (tag_eq t) ts
concerns clear_expire ts = true
concerns clear_remove ts = true

-- What a marker asks for an entry that it is about.
abbrev pub demand : MarkerKind → RemoveByTagBehavior → TagVerdict
demand (tag t) b = by_tag b
demand clear_expire b = expire
demand clear_remove b = remove

-- A write keeps every verdict or makes it stricter, meets its demand, and touches no other entry.
pub written-rank :
    (s : MarkerState) (kind : MarkerKind) (candidate : MarkerVersion) (created : Timestamp)
    (ts : List Tag) (b : RemoveByTagBehavior)
    → (rank (judge s created ts b) ≤ rank (judge (written s kind candidate) created ts b))
      × (concerns kind ts ≡ true
          → leb_ℤ created candidate ≡ true
          → rank (demand kind b) ≤ rank (judge (written s kind candidate) created ts b))
      × ((concerns kind ts && leb_ℤ created candidate) ≡ false
          → judge (written s kind candidate) created ts b ≡ judge s created ts b)
unfolding judge read
written-rank s (tag t) candidate created ts b =
    ground (arith, tagged-written s t candidate created ts, by_tag-rank b)
written-rank s clear_expire candidate created ts b =
    ground (arith, covers-raise s.expire_all candidate created, by_tag-rank b)
written-rank s clear_remove candidate created ts b =
    ground (arith, covers-raise s.remove_all candidate created, by_tag-rank b)
