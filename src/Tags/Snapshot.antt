-- ===== src/Tags/Snapshot.antt =====
-- src/marker_snapshots.rs: expiring snapshots of a marker.
pub mod Laws
use amalgam.Prelude.{Bool, Option, none, some, ◌&&◌, ◌||◌, not, if◌then◌else◌}
use amalgam.Prelude.Int.{ltb_ℤ, eqb_ℤ, max_ℤ}
use amalgam.Prelude.Result.{Result, ok, err}
use amalgam.Time.Duration.{Duration}
use amalgam.Time.Timestamp.{Timestamp, saturating_add, saturating_duration_since}
use amalgam.Options.Entry.{EntryOptions}
use amalgam.Options.Resolved.{resolved_distributed_duration, distributed_physical_ttl}
use amalgam.Tags.Marker.{MarkerVersion}

pub data MarkerSnapshotValidationError : Type 0 where
  invalid_deadlines zero_capacity : MarkerSnapshotValidationError

pub record MarkerSnapshot : Type 0 where
  pub version : MarkerVersion
  pub created : Timestamp
  pub logical : Timestamp
  pub physical : Timestamp

pub new :
    MarkerVersion
    → Timestamp
    → Timestamp
    → Timestamp
    → Result MarkerSnapshot MarkerSnapshotValidationError
new version created logical physical =
    if ltb_ℤ logical created || ltb_ℤ physical logical
    then err invalid_deadlines
    else ok
        (record { version = version; created = created; logical = logical; physical = physical })

pub fresh : MarkerVersion → EntryOptions → Timestamp → MarkerSnapshot
fresh version o now = record {
  version = version;
  created = now;
  logical = saturating_add now (resolved_distributed_duration o);
  physical = saturating_add now (distributed_physical_ttl o);
}

pub is_fresh : MarkerSnapshot → Timestamp → Bool
is_fresh s now = ltb_ℤ now s.logical && ltb_ℤ now s.physical

unfoldable pub is_physically_expired : MarkerSnapshot → Timestamp → Bool
is_physically_expired s now = not (ltb_ℤ now s.physical)

pub remaining_ttl : MarkerSnapshot → Timestamp → Duration
remaining_ttl s now = saturating_duration_since s.physical now

abbrev pub raised : Option MarkerVersion → MarkerVersion → MarkerVersion
raised none version = version
raised (some v) version = max_ℤ v version

unfoldable pub with_maximum : MarkerSnapshot → Option MarkerVersion → MarkerSnapshot
with_maximum s maximum = record s { version = raised maximum s.version }

-- The lexicographic order of version and creation.
abbrev pub supersedes : MarkerSnapshot → MarkerSnapshot → Bool
supersedes s other =
    ltb_ℤ other.version s.version
    || (eqb_ℤ other.version s.version && ltb_ℤ other.created s.created)
