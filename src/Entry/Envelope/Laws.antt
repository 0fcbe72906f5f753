-- ===== src/Entry/Envelope/Laws.antt =====
-- src/entry.rs: how the freshness tests of an entry fit together.
use amalgam.Prelude.{◌≡◌, true, false, not, ◌⊎◌, arith}
use amalgam.Prelude.Int.{◌≤ℤ◌}
use amalgam.Prelude.Word.{IsI64}
use amalgam.Time.Timestamp.{Timestamp}
use amalgam.Entry.Envelope.{
  Entry, Metadata, fresh, stale, is_fresh, freshness, is_logically_expired, is_physically_expired,
  should_eager_refresh,
}

-- An entry is never fresh after it is physically dead, and its bounds are representable.
pub record IsWellFormed (m : Metadata) : Type 0 where
  pub ordered : m.logical_expiration ≤ℤ m.physical_expiration
  pub logical_fits : IsI64 m.logical_expiration
  pub physical_fits : IsI64 m.physical_expiration

-- A well-formed entry is fresh exactly while it is not logically expired; a dead one is stale and
-- stays dead; an eager refresh starts only while the entry is fresh; and a stale entry stays
-- stale.
pub freshness_coherent {ℓ} :
    {V : Type ℓ} (e : Entry V) (now later : Timestamp)
    → IsWellFormed e.meta
    → now ≤ℤ later
    → (is_logically_expired e now ≡ not (is_fresh (freshness e now)))
      × ((is_physically_expired e now ≡ false)
          ⊎ ((freshness e now ≡ stale) × (is_physically_expired e later ≡ true)))
      × ((should_eager_refresh e now ≡ false) ⊎ (freshness e now ≡ fresh))
      × ((freshness e now ≡ fresh) ⊎ (freshness e later ≡ stale))
unfolding freshness is_logically_expired is_physically_expired should_eager_refresh
freshness_coherent e now later v h = (ground arith, ground arith, ground arith, ground arith)
