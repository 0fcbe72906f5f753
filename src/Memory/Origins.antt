-- ===== src/Memory/Origins.antt =====
-- src/memory/origin.rs: the revisions of the keys for which an origin (a factory's start) is
-- registered. A revision is a counter, known by its identity; `alive` tells which counters some
-- owner still holds, which is when a weak reference upgrades.
use amalgam.Prelude.{
  ℕ, ◌+◌, ◌-◌, Bool, not, Option, none, some, List, [], ◌==◌, ◌&&◌, ltb, update, if◌then◌else◌,
}
use amalgam.Prelude.Assoc.{lookup, insert, remove}
use amalgam.Prelude.Text.{Text, text_Eq}
use amalgam.Prelude.Result.{Result, ok, err}
use amalgam.Recovery.MarkerWork.{RecoveryError, generation_exhausted}
use amalgam.Recovery.Work.{u64_max}

pub record ActiveRevision : Type 0 where
  pub revision : ℕ
  pub snapshots : ℕ

-- The registered revisions, and the values of all counters. `next_revision` is the identity of the
-- next counter to be made.
pub record Origins : Type 0 where
  pub active : List (Text × ActiveRevision)
  pub current : ℕ → ℕ
  pub next_revision : ℕ

abbrev pub no_origins : Origins
no_origins = record { active = []; current = λ _. 0; next_revision = 0 }

-- `Weak::upgrade` of the registered revision.
abbrev pub upgraded : (ℕ → Bool) → Option ActiveRevision → Option ℕ
upgraded alive none = none
upgraded alive (some a) = if alive a.revision then some a.revision else none

-- The revision to capture: the registered one, the provided one, or a new counter at 1.
abbrev pub chosen : Origins → Option ℕ → Option ℕ → Origins × ℕ
chosen o (some revision) provided = (o, revision)
chosen o none (some revision) = (o, revision)
chosen o none none = (
  record o { current = update o.current o.next_revision 1; next_revision = o.next_revision + 1 },
  o.next_revision,
)

abbrev pub registered : Option ActiveRevision → ℕ → ActiveRevision
registered none revision = record { revision = revision; snapshots = 1 }
registered (some a) revision =
    if a.revision == revision
    then record a { snapshots = a.snapshots + 1 }
    else record { revision = revision; snapshots = 1 }

-- The revision captured and its value, or an error once the counter is exhausted.
unfoldable pub capture_from :
    (ℕ → Bool) → Origins → Text → Option ℕ → Origins × Result (ℕ × ℕ) RecoveryError
capture_from alive o key provided =
    let (o', revision) = chosen o (upgraded alive (lookup key o.active)) provided in
    if o'.current revision == u64_max then (o', err generation_exhausted) else (
      record o' { active = insert key (registered (lookup key o.active) revision) o.active },
      ok (revision, o'.current revision),
    )

abbrev pub bumped : ℕ → ℕ
bumped n = if ltb n u64_max then n + 1 else u64_max

abbrev pub advance_revision : Origins → Option ℕ → Origins
advance_revision o none = o
advance_revision o (some r) = record o { current = update o.current r (bumped (o.current r)) }

-- `Origins::advance`: a mutation of the key moves its registered revision, if that is still held.
unfoldable pub advance : (ℕ → Bool) → Origins → Text → Origins
advance alive o key = advance_revision o (upgraded alive (lookup key o.active))

abbrev pub forget_over : Origins → Text → ℕ → Option ActiveRevision → Origins
forget_over o key revision none = o
forget_over o key revision (some a) =
    if a.revision == revision
    then record o {
      active =
          (if a.snapshots - 1 == 0
            then remove key o.active
            else insert key (record a { snapshots = a.snapshots - 1 }) o.active);
    }
    else o

unfoldable pub forget : Origins → Text → ℕ → Origins
forget o key revision = forget_over o key revision (lookup key o.active)

pub record RevisionSnapshot : Type 0 where
  pub revision : ℕ
  pub captured : ℕ
  pub generation : ℕ

unfoldable pub matches : Origins → RevisionSnapshot → ℕ → Bool
matches o s generation =
    not (generation == u64_max)
    && (s.generation == generation && o.current s.revision == s.captured)
