-- ===== src/Time/Timestamp/Laws.antt =====
-- Saturation, order and rounding of the timestamps of src/time.rs.
use amalgam.Prelude.{◌*◌, ◌/◌, ◌≤◌, ◌≡◌, refl, ◌⊎◌, arith}
use amalgam.Prelude.Int.{pos, ◌+ℤ◌, ◌-ℤ◌, ◌≤ℤ◌, ◌<ℤ◌, +ℤ_parts, -ℤ_parts, eq_of_parts}
use amalgam.Prelude.Word.{IsI64, i64_max, i64_try_from_cases}
use amalgam.Time.Duration.{Duration, duration_ticks_wide, nanos_per_tick}
use amalgam.Time.Duration.Laws.{duration_ticks_wide-div, unsigned_ticks_to_duration-mul}
use amalgam.Time.Timestamp.{
  Timestamp, saturating_add, saturating_duration_since, lifetime_span, after, abs_diff,
}

-- The sum is the exact one where it fits, and the largest timestamp otherwise.
pub saturating_add_cases :
    (t : Timestamp) (d : Duration)
    → IsI64 t
    → ((t +ℤ pos (d / nanos_per_tick) ≤ℤ i64_max)
        × (saturating_add t d ≡ t +ℤ pos (d / nanos_per_tick)))
      ⊎ ((i64_max <ℤ t +ℤ pos (d / nanos_per_tick)) × (saturating_add t d ≡ i64_max))
unfolding saturating_add
saturating_add_cases t d i = ground (
  arith,
  duration_ticks_wide-div d,
  i64_try_from_cases (t +ℤ pos (duration_ticks_wide d)),
  +ℤ_parts t (pos (duration_ticks_wide d)),
)

-- A later point in time is still an i64, and no earlier than the start.
pub saturating_add_bounds :
    (t : Timestamp) (d : Duration)
    → IsI64 t
    → (t ≤ℤ saturating_add t d) × IsI64 (saturating_add t d)
saturating_add_bounds t d i =
    ground (arith, saturating_add_cases t d i, +ℤ_parts t (pos (d / nanos_per_tick)))

-- From representable instants, saturating addition is monotone in the instant and in the duration.
pub saturating_add_mono :
    (t u : Timestamp) (d e : Duration)
    → IsI64 t
    → IsI64 u
    → t ≤ℤ u
    → d ≤ e
    → saturating_add t d ≤ℤ saturating_add u e
saturating_add_mono t u d e i j h k = ground (
  arith,
  saturating_add_cases t d i,
  saturating_add_cases u e j,
  +ℤ_parts t (pos (d / nanos_per_tick)),
  +ℤ_parts u (pos (e / nanos_per_tick)),
)

-- The duration since an earlier instant counts the ticks between, and is zero the other way round.
pub saturating_duration_since_cases :
    (t u : Timestamp)
    → ((t ≤ℤ u) × (saturating_duration_since t u ≡ 0))
      ⊎ ((u <ℤ t)
          × (pos (saturating_duration_since t u / nanos_per_tick) ≡ t -ℤ u)
          × (saturating_duration_since t u ≡ abs_diff t u * nanos_per_tick))
unfolding saturating_duration_since
saturating_duration_since_cases t u = ground (
  arith,
  unsigned_ticks_to_duration-mul (abs_diff t u),
  -ℤ_parts t u,
  eq_of_parts (pos (abs_diff t u)) (t -ℤ u),
)

-- A prepared lifetime gives the same instant as the duration that it was prepared from.
pub after-lifetime_span :
    (d : Duration) (t : Timestamp) → after (lifetime_span d) t ≡ saturating_add t d
unfolding after lifetime_span saturating_add
after-lifetime_span d t = refl

pub saturating_add-zero : (t : Timestamp) → IsI64 t → saturating_add t 0 ≡ t
saturating_add-zero t i =
    ground (arith, saturating_add_cases t 0 i, +ℤ_parts t (pos 0), eq_of_parts (t +ℤ pos 0) t)
