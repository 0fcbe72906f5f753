-- ===== src/Tags/Snapshot/Laws.antt =====
-- src/marker_snapshots.rs: the snapshots that are taken are the ones that validation accepts.
use amalgam.Prelude.{◌≡◌, false, arith, ◌⊎◌}
use amalgam.Prelude.Int.{ltb_ℤ}
use amalgam.Prelude.Word.{IsI64}
use amalgam.Prelude.Result.{ok}
use amalgam.Time.Timestamp.{Timestamp, saturating_add}
use amalgam.Time.Timestamp.Laws.{saturating_add_bounds, saturating_add_mono}
use amalgam.Options.Entry.{EntryOptions}
use amalgam.Options.Resolved.{resolved_distributed_duration, distributed_physical_ttl}
use amalgam.Options.Resolved.Laws.{physical_ttl_covers}
use amalgam.Tags.Marker.{MarkerVersion}
use amalgam.Tags.Snapshot.{new, fresh, is_fresh, is_physically_expired}

-- A snapshot taken at a representable instant is one that validation accepts; it is fresh exactly
-- until the resolved distributed duration has passed, and not physically expired while it is fresh.
pub fresh_accepted :
    (version : MarkerVersion) (o : EntryOptions) (now later : Timestamp)
    → IsI64 now
    → (new version now (fresh version o now).logical (fresh version o now).physical
        ≡ ok (fresh version o now))
      × (is_fresh (fresh version o now) later
          ≡ ltb_ℤ later (saturating_add now (resolved_distributed_duration o)))
      × ((is_fresh (fresh version o now) later ≡ false)
          ⊎ (is_physically_expired (fresh version o now) later ≡ false))
unfolding new fresh is_fresh is_physically_expired
fresh_accepted version o now later i =
    let covered =
      saturating_add_mono now now (resolved_distributed_duration o) (distributed_physical_ttl o) i i
        (omega arith) (physical_ttl_covers o).1 in
    let starts = saturating_add_bounds now (resolved_distributed_duration o) i in
    (ground (arith, covered, starts), ground (arith, covered), ground (arith, covered))
