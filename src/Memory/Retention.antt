-- ===== src/Memory/Retention.antt =====
-- src/memory.rs: `Retention`, the store with limits. Each function is one critical section of its
-- mutex. A `Moment` is what the section reads from outside: the epochs of the read fences, the
-- runtime's clock, which instants are beyond it, and which origin revisions are still held.
pub mod Insert
pub mod Weights
pub mod Room
pub mod Valid
pub mod Placement
pub mod Admission
pub mod Outcome
use mathlib.Core.Option
use amalgam.Prelude.{
  ℕ, ◌+◌, ◌-◌, Bool, true, false, not, Option, none, some, List, [], ◌∷◌, ◌++◌, ◌==◌, ◌&&◌, ◌||◌,
  ltb, leb, length, if◌then◌else◌,
}
use amalgam.Prelude.Assoc.{lookup, insert, remove}
use amalgam.Prelude.Text.{Text, text_Eq}
use amalgam.Prelude.Result.{Result, ok, err}
use amalgam.Time.Duration.{Duration}
use amalgam.Time.Timestamp.{Timestamp, is_before}
use amalgam.Entry.Envelope.{Entry, Epochs, is_read_eligible, is_physically_expired}
use amalgam.Memory.{
  MemoryLimits, fits, MemoryExpiry, clock_driven, real_time, CapacityRejection, oversized,
  physically_expired, version_changed, MemoryAdmission, admitted, replaced, rejected,
  MemoryWriteEvent, set, expire, CaptureAdmission, RetirementReason, explicit, replacement, expiry,
  capacity, eligibility, metadata, Handle, Retirement,
}
use amalgam.Memory.Origins.{Origins, no_origins, advance, RevisionSnapshot, matches}
use amalgam.Memory.Eviction.{
  Stored, entry_weight, handle_weight, handle_priority, projection, projection_fits, plan,
}
use amalgam.Recovery.Work.{u64_max}

abbrev pub u128_max : ℕ
u128_max = 340_282_366_920_938_463_463_374_607_431_768_211_455

pub record Moment : Type 0 where
  pub epochs : Epochs
  pub elapsed : ℕ
  pub alive : ℕ → Bool
  pub overflows : Duration → Bool

-- `Expected`: what an insertion requires of the representation that is stored under its key.
pub data Expected {ℓ} (V : Type ℓ) : Type ℓ where
  any_entry absent mutation : Expected V
  same mutation_of : Handle V → Expected V
  origin : RevisionSnapshot → Expected V

-- `missing` is `Absent`; `raced` is an answer of the sharded store only.
pub data MemoryRead {ℓ} (V : Type ℓ) : Type ℓ where
  present : Handle V → MemoryRead V
  missing : MemoryRead V
  raced : Handle V → MemoryRead V
  expired : Retirement V → MemoryRead V

pub record Retention {ℓ} (V : Type ℓ) : Type ℓ where
  pub origins : Origins
  pub generation : ℕ
  pub entries : List (Text × Stored V)
  pub weight : ℕ
  pub next_access : ℕ
  pub limits : MemoryLimits
  pub expiry_mode : MemoryExpiry

abbrev pub reached : Option ℕ → ℕ → Bool
reached none elapsed = false
reached (some deadline) elapsed = leb deadline elapsed

abbrev pub is_some {κ} : {A : Type κ} → Option A → Bool
is_some none = false
is_some (some _) = true

abbrev pub next_ticket : ℕ → ℕ
next_ticket n = if ltb n u128_max then n + 1 else u128_max

abbrev pub replacing : MemoryWriteEvent → RetirementReason
replacing set = replacement
replacing expire = metadata

module _ {ℓ} {V : Type ℓ} where
  unfoldable pub new : MemoryLimits → MemoryExpiry → Retention V
  new limits mode = record {
    origins = no_origins;
    generation = 1;
    entries = [];
    weight = 0;
    next_access = 0;
    limits = limits;
    expiry_mode = mode;
  }

  abbrev pub dead_at : Entry V → Option Timestamp → Bool
  dead_at e none = false
  dead_at e (some now) = is_physically_expired e now

  unfoldable pub retirement_reason : Moment → Option Timestamp → Stored V → Option RetirementReason
  retirement_reason at now s =
      if not (is_read_eligible s.handle.entry at.epochs)
      then some eligibility
      else if dead_at s.handle.entry now || reached s.monotonic_expiration at.elapsed
      then some expiry
      else none

  unfoldable pub is_dead : Moment → Option Timestamp → Stored V → Bool
  is_dead at now s = is_some (retirement_reason at now s)

  abbrev pub retire : Stored V → Text → RetirementReason → Retirement V
  retire s key reason = record {
    key = key;
    handle = s.handle;
    reason = reason;
    capture = s.capture;
  }

  -- `remove`
  abbrev pub removed : Retention V → Text → Option (Stored V) → Retention V
  removed r key none = r
  removed r key (some s) = record r {
    entries = remove key r.entries;
    weight = r.weight - entry_weight s;
  }

  unfoldable pub take : Retention V → Text → Retention V × Option (Stored V)
  take r key = (removed r key (lookup key r.entries), lookup key r.entries)

  abbrev touch : Retention V → Text → Option (Stored V) → Retention V × MemoryRead V
  touch r key none = (record r { next_access = next_ticket r.next_access }, missing)
  touch r key (some s) = (
    record r {
      next_access = next_ticket r.next_access;
      entries = insert key (record s { access = next_ticket r.next_access }) r.entries;
    },
    present s.handle,
  )

  abbrev read_stored :
      Retention V → Text → Stored V → Option RetirementReason → Retention V × MemoryRead V
  read_stored r key s none = touch r key (some s)
  read_stored r key s (some reason) = (removed r key (some s), expired (retire s key reason))

  abbrev get_over :
      Moment
      → Option Timestamp
      → Retention V
      → Text
      → Option (Stored V)
      → Retention V × MemoryRead V
  get_over at now r key none = touch r key none
  get_over at now r key (some s) = read_stored r key s (retirement_reason at now s)

  unfoldable pub get : Moment → Option Timestamp → Retention V → Text → Retention V × MemoryRead V
  get at now r key = get_over at now r key (lookup key r.entries)

  abbrev pub dead_keys : Moment → Option Timestamp → List (Text × Stored V) → List Text
  dead_keys at now [] = []
  dead_keys at now ((k, s) ∷ m) =
      let rest = dead_keys at now m in if is_dead at now s then k ∷ rest else rest

  -- The loops that remove a list of keys and retire what they held.
  abbrev pub retired_of :
      (Stored V → RetirementReason)
      → Text
      → Option (Stored V)
      → List (Retirement V)
      → List (Retirement V)
  retired_of reason key none rest = rest
  retired_of reason key (some s) rest = retire s key (reason s) ∷ rest

  unfoldable pub remove_keys :
      (Stored V → RetirementReason) → List Text → Retention V → Retention V × List (Retirement V)
  unfolding take
  remove_keys reason [] r = (r, [])
  remove_keys reason (k ∷ ks) r =
      let (r', found) = take r k in
      let (last, rest) = remove_keys reason ks r' in (last, retired_of reason k found rest)

  abbrev pub expiry_reason : Moment → Option Timestamp → Stored V → RetirementReason
  expiry_reason at now s = Option.get_or (retirement_reason at now s) expiry

  unfoldable pub remove_expired :
      Moment → Option Timestamp → Retention V → Retention V × List (Retirement V)
  unfolding remove_keys
  remove_expired at now r = remove_keys (expiry_reason at now) (dead_keys at now r.entries) r
