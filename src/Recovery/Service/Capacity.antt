-- ===== src/Recovery/Service/Capacity.antt =====
-- src/recovery.rs: the queue stays within capacity, and its identities are never reused.
use amalgam.Prelude.{ℕ, ◌≡◌, Bool, true, Option, none, some, ltb, leb, all, length}
use mathlib.Core.Option
use amalgam.Time.Timestamp.{Timestamp}
use amalgam.Recovery.Work.{RecoveryKey, key_Eq}
use amalgam.Recovery.Service.{Queued, AutoRecoveryService}

abbrev fits : Option ℕ → ℕ → Bool
fits none n = true
fits (some limit) n = leb n limit

abbrev below : Option ℕ → RecoveryKey × Queued → Bool
below none e = true
below (some n) e = ltb e.1.ticket.id n

-- A queue within capacity, all of whose identities precede the next one.
pub record IsValid (s : AutoRecoveryService) : Type 0 where
  pub bounded : fits s.config.max_items (length s.entries) ≡ true
  pub issued : all (below s.next_id) s.entries ≡ true
