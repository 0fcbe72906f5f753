-- ===== src/Memory/Store/Requests.antt =====
-- src/memory.rs: the requests of a client, as the store serves them and as a map does.
use amalgam.Prelude.{
  ℕ, ◌+◌, List, [], ◌∷◌, length, ◌≡◌, Bool, true, not, Option, none, some, ◌||◌, if◌then◌else◌,
}
use amalgam.Prelude.Assoc.{lookup}
use amalgam.Prelude.Maps.{is_none}
use amalgam.Prelude.Text.{Text, text_eq, text_Eq}
use amalgam.Time.Timestamp.{Timestamp}
use amalgam.Entry.Envelope.{is_read_eligible, is_physically_expired}
use amalgam.Memory.{fits, clock_driven, Handle, unarmed, set}
use amalgam.Memory.Eviction.{Stored, handle_weight}
use amalgam.Memory.Retention.{
  Moment, Retention, MemoryRead, present, missing, raced, expired, mutation, get,
}
use amalgam.Memory.Retention.Admission.{holds}
use amalgam.Memory.Store.{apply_write, detach_remove, invalidate_all}

-- What a client asks of the store.
pub data Request {ℓ} (V : Type ℓ) : Type ℓ where
  put : Text → Handle V → Timestamp → Request V
  look : Text → Timestamp → Request V
  detach : Text → Request V
  wipe : Request V

abbrev pub Contents {ℓ} : Type ℓ → Type ℓ
Contents V = Text → Option (Handle V)

module _ {ℓ} {V : Type ℓ} where
  abbrev pub assign : Contents V → Text → Option (Handle V) → Contents V
  assign m k v j = if text_eq k j then v else m j

  -- A representation that a read would not return.
  abbrev pub has_expired : Moment → Timestamp → Handle V → Bool
  has_expired at now h =
      not (is_read_eligible h.entry at.epochs) || is_physically_expired h.entry now

  abbrev pub alive_handle : Moment → Timestamp → Option (Handle V) → Option (Handle V)
  alive_handle at now none = none
  alive_handle at now (some h) = if has_expired at now h then none else some h

  -- The map that the store stands for: what each request does to it, and what it answers.
  abbrev pub specified : Moment → Request V → Contents V → Contents V × Option (Handle V)
  specified at (put k h now) m =
      (if is_physically_expired h.entry now then m else assign m k (some h), none)
  specified at (look k now) m = (assign m k (alive_handle at now (m k)), alive_handle at now (m k))
  specified at (detach k) m = (assign m k none, none)
  specified at wipe m = ((λ j. none), none)

  abbrev pub read_answer : MemoryRead V → Option (Handle V)
  read_answer (present h) = some h
  read_answer missing = none
  read_answer (raced h) = some h
  read_answer (expired r) = none

  -- The same requests to the store.
  unfoldable pub serve : Moment → Request V → Retention V → Retention V × Option (Handle V)
  unfolding apply_write get detach_remove invalidate_all
  serve at (put k h now) r = ((apply_write at r k h now mutation unarmed set).0, none)
  serve at (look k now) r = let (r', answer) = get at (some now) r k in (r', read_answer answer)
  serve at (detach k) r = ((detach_remove at r k).0, none)
  serve at wipe r = ((invalidate_all r).0, none)

  abbrev pub contents : Retention V → Contents V
  contents r k = holds (lookup k r.entries)

  abbrev pub timeless : Option (Stored V) → Bool
  timeless none = true
  timeless (some s) = is_none s.monotonic_expiration

  -- What a request can add to the count of entries, and to their weight.
  abbrev pub entries_for : Request V → ℕ
  entries_for (put k h now) = 1
  entries_for (look k now) = 0
  entries_for (detach k) = 0
  entries_for wipe = 0

  abbrev pub weight_for : Request V → ℕ
  weight_for (put k h now) = handle_weight h
  weight_for (look k now) = 0
  weight_for (detach k) = 0
  weight_for wipe = 0

  abbrev pub entries_for_all : List (Moment × Request V) → ℕ
  entries_for_all [] = 0
  entries_for_all ((at, q) ∷ rest) = entries_for q + entries_for_all rest

  abbrev pub weight_for_all : List (Moment × Request V) → ℕ
  weight_for_all [] = 0
  weight_for_all ((at, q) ∷ rest) = weight_for q + weight_for_all rest

  -- The limits have room for so many more entries, of so much weight, and entries expire by the
  -- injected clock alone.
  pub record IsRoomy (r : Retention V) (count weight : ℕ) : Type ℓ where
    pub room : fits r.limits (length r.entries + count) (r.weight + weight) ≡ true
    pub by_clock : r.expiry_mode ≡ clock_driven
    pub undated : (k : Text) → timeless (lookup k r.entries) ≡ true
