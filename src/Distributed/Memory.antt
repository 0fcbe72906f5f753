-- ===== src/Distributed/Memory.antt =====
-- src/distributed.rs: the in-memory distributed cache, a map from keys to bytes with an expiration.
-- Each operation on the map is one step; `now` is what the clock shows in it.
pub mod Refinement
use mathlib.Core.Option
use amalgam.Prelude.{Bool, true, false, Option, none, some, List, if◌then◌else◌}
use amalgam.Prelude.Assoc.{lookup, insert, remove}
use amalgam.Prelude.Result.{Result, ok, err}
use amalgam.Prelude.Text.{Text, text_Eq}
use amalgam.Time.Duration.{Duration}
use amalgam.Time.Timestamp.{Timestamp, saturating_add, is_before}
use amalgam.Distributed.Canonical.{Bytes}

pub record StoredBytes : Type 0 where
  pub bytes : Bytes
  pub expires_at : Option Timestamp

abbrev pub Entries : Type 0
Entries = List (Text × StoredBytes)

-- `expires_at.is_none_or(|exp| now.is_before(exp))`
abbrev pub alive : Option Timestamp → Timestamp → Bool
alive none now = true
alive (some expires) now = is_before now expires

abbrev live_bytes : Timestamp → Option StoredBytes → Option Bytes
live_bytes now none = none
live_bytes now (some stored) = if alive stored.expires_at now then some stored.bytes else none

-- The two steps of a read: it looks the key up, and a miss drops what has expired (`remove_if`).
unfoldable pub look : Entries → Text → Timestamp → Option Bytes
look map key now = live_bytes now (lookup key map)

abbrev drop_expired : Text → Timestamp → Option StoredBytes → Entries → Entries
drop_expired key now none map = map
drop_expired key now (some stored) map = if alive stored.expires_at now then map else remove key map

unfoldable pub sweep : Entries → Text → Timestamp → Entries
sweep map key now = drop_expired key now (lookup key map) map

abbrev read_hit : Entries → Text → Timestamp → Option Bytes → Entries × Option Bytes
read_hit map key now (some bytes) = (map, some bytes)
read_hit map key now none = (sweep map key now, none)

unfoldable pub read_now : Entries → Text → Timestamp → Entries × Option Bytes
unfolding look sweep
read_now map key now = read_hit map key now (look map key now)

-- `get` and `get_immediate` are `read_now`.
pub get : Entries → Text → Timestamp → Entries × Option Bytes
unfolding read_now
get map key now = read_now map key now

unfoldable pub set : Entries → Text → Bytes → Option Duration → Timestamp → Entries
set map key value ttl now =
    insert key
      (record {
        bytes = value;
        expires_at = Option.map (λ (d : Duration). saturating_add now d) ttl;
      })
      map

unfoldable pub remove_key : Entries → Text → Entries
remove_key map key = remove key map

pub data LeasedMutation : Type 0 where
  set_bytes : Bytes → Option Duration → LeasedMutation
  remove_bytes : LeasedMutation

pub data LeasedWriteOutcome : Type 0 where
  committed lease_lost : LeasedWriteOutcome

abbrev pub mutate : Entries → Text → LeasedMutation → Timestamp → Entries
mutate map key (set_bytes bytes ttl) now = set map key bytes ttl now
mutate map key remove_bytes now = remove_key map key

-- `proof.with_memory_ownership` runs the mutation under the lease (`ok true`), finds the lease gone
-- (`ok false`), or refuses the proof.
pub write_with_lease {ℓ} :
    {E : Type ℓ}
    → Entries
    → Text
    → LeasedMutation
    → Result Bool E
    → Timestamp
    → Entries × Result LeasedWriteOutcome E
write_with_lease map key mutation (ok true) now = (mutate map key mutation now, ok committed)
write_with_lease map key mutation (ok false) now = (map, ok lease_lost)
write_with_lease map key mutation (err e) now = (map, err e)
