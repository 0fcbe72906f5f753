-- ===== src/Memory.antt =====
-- src/memory.rs: the local store, its limits and the outcomes of an admission. `Memory/Retention` is
-- the store with limits; `Memory/Origins` the revisions that fence factories off.
pub mod Origins
pub mod Eviction
pub mod Retention
pub mod Store
mod Tests
use amalgam.Prelude.{ℕ, Bool, true, false, Option, none, some, ◌&&◌, leb}
use amalgam.Prelude.Text.{Text}
use amalgam.Entry.Envelope.{Entry}

pub record MemoryLimits : Type 0 where
  pub entries : Option ℕ
  pub weight : Option ℕ

-- `is_none_or(|limit| n <= limit)`
abbrev pub within : Option ℕ → ℕ → Bool
within none n = true
within (some limit) n = leb n limit

abbrev pub fits : MemoryLimits → ℕ → ℕ → Bool
fits l entries weight = within l.entries entries && within l.weight weight

pub data MemoryExpiry : Type 0 where
  clock_driven real_time : MemoryExpiry

pub data CapacityRejection : Type 0 where
  oversized protected_capacity physically_expired version_changed : CapacityRejection
  generation_exhausted : CapacityRejection

pub data MemoryAdmission : Type 0 where
  admitted replaced : MemoryAdmission
  rejected : CapacityRejection → MemoryAdmission

pub data MemoryWriteEvent : Type 0 where
  set expire : MemoryWriteEvent

pub data CaptureAdmission : Type 0 where
  armed unarmed : CaptureAdmission

-- `replacement` and `expiry` are `Replaced` and `Expired`.
pub data RetirementReason : Type 0 where
  explicit replacement expiry capacity eligibility continuity metadata : RetirementReason

-- A shared handle: which representation it is, and the entry. Two handles are the same instance if
-- the identities agree.
pub record Handle {ℓ} (V : Type ℓ) : Type ℓ where
  pub instance_id : ℕ
  pub entry : Entry V

pub record Retirement {ℓ} (V : Type ℓ) : Type ℓ where
  pub key : Text
  pub handle : Handle V
  pub reason : RetirementReason
  pub capture : CaptureAdmission
