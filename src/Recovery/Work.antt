-- ===== src/Recovery/Work.antt =====
-- src/recovery.rs: the units of recovery work, their identities and their order.
pub mod Laws
use amalgam.Prelude.{
  ℕ, ◌+◌, Bool, true, false, Option, none, some, List, ◌&&◌, ◌==◌, ◌≡◌, ◌↔◌, refl, arith, ltb,
  if◌then◌else◌,
}
use amalgam.Prelude.Int.{ltb_ℤ}
use amalgam.Prelude.Assoc.{Eq}
use amalgam.Prelude.Text.{Text, text_eq, text_eq_iff}
use amalgam.Prelude.Result.{Result, ok, err}
use amalgam.Time.Duration.{Duration}
use amalgam.Time.Timestamp.{Timestamp, saturating_duration_since}
use amalgam.Options.Entry.{EntryOptions}
use amalgam.Tags.Marker.{MarkerKind, tag, clear_expire, clear_remove, kind_eq, tag_eq_iff}
use amalgam.Tags.Scope.{CacheScope}
use amalgam.Tags.Snapshot
use amalgam.Tags.Snapshot.{MarkerSnapshot}
use amalgam.Backplane.{MarkerCommand, BackplaneCommand}
use amalgam.Recovery.MarkerWork.{
  RecoveryError, generation_exhausted, MarkerMutationRecovery, version_of,
}

pub data RecoveryAction : Type 0 where
  set remove expire : RecoveryAction

pub record RecoveryItem : Type 0 where
  pub key : Text
  pub action : RecoveryAction
  pub timestamp : Timestamp
  pub expires_at : Timestamp
  pub remaining_retries : Option ℕ

pub record RecoveryConfig : Type 0 where
  pub enabled : Bool
  pub delay : Duration
  pub max_items : Option ℕ
  pub max_retries : Option ℕ

-- A generation is a u64.
abbrev pub OperationGeneration : Type 0
OperationGeneration = ℕ

abbrev pub u64_max : ℕ
u64_max = 18_446_744_073_709_551_615

-- `OperationGeneration::next`
unfoldable pub next_generation : OperationGeneration → Result OperationGeneration RecoveryError
next_generation g = if ltb g u64_max then ok (g + 1) else err generation_exhausted

-- `Fence` of src/commit.rs: the key lane and the epoch, by their identities, and what they were.
pub record Fence : Type 0 where
  pub lane : ℕ
  pub generation : OperationGeneration
  pub epoch : ℕ
  pub captured_epoch : ℕ

-- The present generations of the key lanes.
abbrev pub Generations : Type 0
Generations = ℕ → OperationGeneration

abbrev pub is_current : Generations → Fence → Bool
is_current generations f = generations f.lane == f.generation

-- Whether the fence still admits passive work: the epoch, by its identity, has not moved either.
abbrev pub passive_is_current : Generations → (ℕ → ℕ) → Fence → Bool
passive_is_current generations epochs f =
    is_current generations f && epochs f.epoch == f.captured_epoch

pub data DataMutation : Type 0 where
  set_bytes : List ℕ → Timestamp → DataMutation
  remove_key : DataMutation
  expire_bytes : List ℕ → Timestamp → DataMutation

pub remaining_ttl : DataMutation → Timestamp → Option Duration
remaining_ttl (set_bytes _ physical) now = some (saturating_duration_since physical now)
remaining_ttl (expire_bytes _ physical) now = some (saturating_duration_since physical now)
remaining_ttl remove_key now = none

pub data PendingMutation : Type 0 where
  legacy : PendingMutation
  commit : DataMutation → Option BackplaneCommand → PendingMutation
  fenced_commit : DataMutation → Option BackplaneCommand → PendingMutation
  cold_expire : Timestamp → Option BackplaneCommand → PendingMutation
  notify : BackplaneCommand → PendingMutation

pub data MarkerReplay : Type 0 where
  advance_only advance_and_notify notify_only : MarkerReplay

pub data MarkerSnapshotParticipation : Type 0 where
  unleased fenced cooperative : MarkerSnapshotParticipation

pub record MarkerSnapshotReplay : Type 0 where
  pub scope : CacheScope
  pub kind : MarkerKind
  pub snapshot : MarkerSnapshot
  pub options : EntryOptions
  pub participation : MarkerSnapshotParticipation

pub data RecoveryWork : Type 0 where
  data_work : RecoveryItem → PendingMutation → RecoveryWork
  marker_work : MarkerCommand → MarkerReplay → RecoveryWork
  marker_mutation : MarkerMutationRecovery → RecoveryWork
  marker_snapshot : MarkerSnapshotReplay → RecoveryWork

-- A key holds of a scope what its equality and hash see: the physical prefix and suffix.
pub data RecoveryKey : Type 0 where
  data_key : Text → RecoveryKey
  marker_key : Text → Text → MarkerKind → RecoveryKey
  snapshot_key : Text → Text → MarkerKind → RecoveryKey

abbrev pub item : RecoveryWork → Option RecoveryItem
item (data_work i _) = some i
item (marker_work _ _) = none
item (marker_mutation _) = none
item (marker_snapshot _) = none

abbrev command_key : MarkerCommand → RecoveryKey
command_key c = marker_key c.scope.physical_prefix c.scope.physical_suffix c.marker.kind

abbrev pub key : RecoveryWork → RecoveryKey
key (data_work i _) = data_key i.key
key (marker_work c _) = command_key c
key (marker_mutation w) = command_key w.command
key (marker_snapshot w) = snapshot_key w.scope.physical_prefix w.scope.physical_suffix w.kind

abbrev pub timestamp : RecoveryWork → Timestamp
timestamp (data_work i _) = i.timestamp
timestamp (marker_work c _) = version_of c
timestamp (marker_mutation w) = version_of w.command
timestamp (marker_snapshot w) = w.snapshot.version

abbrev pub expires_at : RecoveryWork → Option Timestamp
expires_at (data_work i _) = some i.expires_at
expires_at (marker_work _ _) = none
expires_at (marker_mutation _) = none
expires_at (marker_snapshot w) = some w.snapshot.physical

abbrev snapshot_over : MarkerSnapshotReplay → RecoveryWork → Bool
snapshot_over w (marker_snapshot previous) = Snapshot.supersedes w.snapshot previous.snapshot
snapshot_over w (data_work _ _) = false
snapshot_over w (marker_work _ _) = false
snapshot_over w (marker_mutation _) = false

unfoldable pub supersedes : RecoveryWork → RecoveryWork → Bool
supersedes (marker_snapshot w) previous = snapshot_over w previous
supersedes (data_work i m) previous = ltb_ℤ (timestamp previous) (timestamp (data_work i m))
supersedes (marker_work c r) previous = ltb_ℤ (timestamp previous) (timestamp (marker_work c r))
supersedes (marker_mutation w) previous = ltb_ℤ (timestamp previous) (timestamp (marker_mutation w))

kind_eq_iff : (a b : MarkerKind) → (kind_eq a b ≡ true) ↔ (a ≡ b)
kind_eq_iff (tag a) (tag b) =
    let e = tag_eq_iff a b in (λ h. ground (arith, e), λ p. ground (arith, e))
kind_eq_iff (tag a) clear_expire = (λ h. ground arith, λ p. ground arith)
kind_eq_iff (tag a) clear_remove = (λ h. ground arith, λ p. ground arith)
kind_eq_iff clear_expire (tag b) = (λ h. ground arith, λ p. ground arith)
kind_eq_iff clear_expire clear_expire = (λ h. refl, λ p. refl)
kind_eq_iff clear_expire clear_remove = (λ h. ground arith, λ p. ground arith)
kind_eq_iff clear_remove (tag b) = (λ h. ground arith, λ p. ground arith)
kind_eq_iff clear_remove clear_expire = (λ h. ground arith, λ p. ground arith)
kind_eq_iff clear_remove clear_remove = (λ h. refl, λ p. refl)

abbrev scoped_eq : Text → Text → MarkerKind → Text → Text → MarkerKind → Bool
scoped_eq a b k c d l = text_eq a c && (text_eq b d && kind_eq k l)

abbrev pub key_eq : RecoveryKey → RecoveryKey → Bool
key_eq (data_key a) (data_key b) = text_eq a b
key_eq (data_key a) (marker_key _ _ _) = false
key_eq (data_key a) (snapshot_key _ _ _) = false
key_eq (marker_key a b k) (marker_key c d l) = scoped_eq a b k c d l
key_eq (marker_key _ _ _) (data_key _) = false
key_eq (marker_key _ _ _) (snapshot_key _ _ _) = false
key_eq (snapshot_key a b k) (snapshot_key c d l) = scoped_eq a b k c d l
key_eq (snapshot_key _ _ _) (data_key _) = false
key_eq (snapshot_key _ _ _) (marker_key _ _ _) = false

pub key_eq_iff : (a b : RecoveryKey) → (key_eq a b ≡ true) ↔ (a ≡ b)
key_eq_iff (data_key a) (data_key b) =
    (λ h. ground (arith, text_eq_iff a b), λ p. ground (arith, text_eq_iff a b))
key_eq_iff (data_key a) (marker_key _ _ _) = (λ h. ground arith, λ p. ground arith)
key_eq_iff (data_key a) (snapshot_key _ _ _) = (λ h. ground arith, λ p. ground arith)
key_eq_iff (marker_key a b k) (marker_key c d l) = (
  λ h. ground (arith, text_eq_iff a c, text_eq_iff b d, kind_eq_iff k l),
  λ p. ground (arith, text_eq_iff a c, text_eq_iff b d, kind_eq_iff k l),
)
key_eq_iff (marker_key _ _ _) (data_key _) = (λ h. ground arith, λ p. ground arith)
key_eq_iff (marker_key _ _ _) (snapshot_key _ _ _) = (λ h. ground arith, λ p. ground arith)
key_eq_iff (snapshot_key a b k) (snapshot_key c d l) = (
  λ h. ground (arith, text_eq_iff a c, text_eq_iff b d, kind_eq_iff k l),
  λ p. ground (arith, text_eq_iff a c, text_eq_iff b d, kind_eq_iff k l),
)
key_eq_iff (snapshot_key _ _ _) (data_key _) = (λ h. ground arith, λ p. ground arith)
key_eq_iff (snapshot_key _ _ _) (marker_key _ _ _) = (λ h. ground arith, λ p. ground arith)

instance abbrev pub key_Eq : Eq RecoveryKey
key_Eq = record { beq = key_eq; beq_iff = key_eq_iff }
