-- ===== src/Recovery/Service/Order.antt =====
-- src/recovery.rs: what an enqueue may replace.
use amalgam.Prelude.{◌<◌, ◌≡◌, ◌⊎◌, true, Option, none, some}
use amalgam.Time.Timestamp.{Timestamp}
use amalgam.Recovery.Work.{RecoveryWork, supersedes, Fence, key_Eq}
use amalgam.Recovery.Service.{ReplayTicket}

-- Of two fenced operations the new one is of a later generation; if either is unfenced, whose
-- generation is not of its lane, the new work orders itself after the queued work.
pub data Outranks (fence : Option Fence) (work : RecoveryWork) (ticket : ReplayTicket)
    : Type 0 where
  later :
      (f e : Fence)
      → fence ≡ some f
      → ticket.fence ≡ some e
      → ticket.generation < f.generation
      → Outranks fence work ticket
  unfenced :
      (fence ≡ none) ⊎ (ticket.fence ≡ none)
      → supersedes work ticket.work ≡ true
      → Outranks fence work ticket
