-- ===== src/Time/Timeout.antt =====
-- src/time.rs: `Timeout`, unbounded or after a finite duration.
pub mod Laws
use Prim.Native.Nat.{min as min_ℕ}
use amalgam.Prelude.{Bool, true, false, Option, none, some}
use amalgam.Time.Duration.{Duration, is_zero}

pub data Timeout : Type 0 where
  infinite : Timeout
  after : Duration → Timeout

abbrev pub from_option : Option Duration → Timeout
from_option (some d) = after d
from_option none = infinite

abbrev pub is_infinite : Timeout → Bool
is_infinite infinite = true
is_infinite (after _) = false

abbrev pub is_immediate : Timeout → Bool
is_immediate infinite = false
is_immediate (after d) = is_zero d

abbrev pub as_duration : Timeout → Option Duration
as_duration infinite = none
as_duration (after d) = some d

unfoldable pub min : Timeout → Timeout → Timeout
min infinite o = o
min (after a) infinite = after a
min (after a) (after b) = after (min_ℕ a b)
