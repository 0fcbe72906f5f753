-- ===== src/Circuit/Laws.antt =====
-- src/circuit.rs: what one caller of the breaker observes.
use amalgam.Prelude.{
  ℕ, ◌+◌, ◌/◌, ◌==◌, ◌≡◌, refl, true, false, ◌⊎◌, List, [], ◌∷◌, arith, if◌then◌else◌,
}
use amalgam.Prelude.Int.{pos, ◌+ℤ◌, ◌≤ℤ◌, ◌<ℤ◌, ltb_ℤ, eqb_ℤ, max_ℤ, min_ℤ, +ℤ_parts, eq_of_parts}
use amalgam.Prelude.Word.{IsI64, i64_max}
use amalgam.Time.Duration.{Duration, is_zero}
use amalgam.Time.Timestamp.{Timestamp, saturating_add}
use amalgam.Time.Timestamp.Laws.{saturating_add_bounds, saturating_add_cases}
use amalgam.Circuit.{
  CircuitBreaker, open_until, closed_after_cooldown, closed_cell, admission, compare_exchange,
  check, is_disabled, window_end, trip, new,
}

-- The window of a trip ends after the trip, and after the sentinel.
pub window_end_bounds :
    (d : Duration) (now : Timestamp)
    → IsI64 now
    → (now ≤ℤ window_end d now)
      × (saturating_add now d ≤ℤ window_end d now)
      × (closed_cell <ℤ window_end d now)
      × (window_end d now ≤ℤ i64_max)
unfolding window_end
window_end_bounds d now i = ground (arith, saturating_add_bounds now d i, +ℤ_parts now (pos 1))

-- When a breaker that is tripped once lets calls through again: its open duration later, in whole
-- ticks but at least one, or at the end of time.
abbrev pub reopening : Duration → Timestamp → Timestamp
reopening d t = let ticks = d / 100 in min_ℤ (t +ℤ pos (if ticks == 0 then 1 else ticks)) i64_max

window_end-reopening : (d : Duration) (t : Timestamp) → IsI64 t → window_end d t ≡ reopening d t
unfolding window_end
window_end-reopening d t i = ground (
  arith,
  saturating_add_cases t d i,
  +ℤ_parts t (pos 1),
  +ℤ_parts t (pos (d / 100)),
  eq_of_parts (window_end d t) (reopening d t),
)

-- The latest of the reopenings of some trips, and of an instant.
abbrev pub latest : Duration → Timestamp → List Timestamp → Timestamp
latest d e [] = e
latest d e (t ∷ ts) = latest d (max_ℤ e (reopening d t)) ts

abbrev pub AreI64 : List Timestamp → Type 0
AreI64 [] = Unit {0}
AreI64 (t ∷ ts) = IsI64 t × AreI64 ts

-- Trips in order, with the number of those that report a transition.
pub trip_all : CircuitBreaker → List Timestamp → CircuitBreaker × ℕ
unfolding trip
trip_all b [] = (b, 0)
trip_all b (t ∷ ts) =
    let (tripped, opened) = trip b t in
    let (last, reports) = trip_all tripped ts in (last, (if opened then 1 else 0) + reports)

reopening_bounds : (d : Duration) (t : Timestamp) → IsI64 t → closed_cell <ℤ reopening d t
reopening_bounds d t i = ground (arith, +ℤ_parts t (pos (d / 100)), +ℤ_parts t (pos 1))

-- An open breaker stays open under trips, until the latest of their reopenings.
trip_all_reopened :
    (d : Duration) (e : Timestamp) (ts : List Timestamp)
    → is_zero d ≡ false
    → AreI64 ts
    → closed_cell <ℤ e
    → (trip_all (record { open_duration = d; reopen_at = e }) ts
        ≡ (record { open_duration = d; reopen_at = latest d e ts }, 0))
      × (closed_cell <ℤ latest d e ts)
unfolding trip_all trip
trip_all_reopened d e [] enabled all above = (refl, above)
trip_all_reopened d e (t ∷ ts) enabled (i, all) above =
    let (a, b) =
      trip_all_reopened d (max_ℤ e (reopening d t)) ts enabled all (ground (arith, above)) in
    let shut : eqb_ℤ e closed_cell ≡ false = ground (arith, above) in
    (rw (enabled, window_end-reopening d t i, shut, a) refl, b)

-- If an enabled, closed breaker is tripped at any representable instants, at least once, one of the
-- trips reports the transition; until the latest of their reopenings, each of which is the whole
-- ticks of the open duration, and at least one, after its trip, or the end of time, a check reports
-- that instant and changes nothing, and from then on it closes the breaker.
pub check-trip_all :
    (d : Duration) (t : Timestamp) (ts : List Timestamp) (now : Timestamp)
    → is_zero d ≡ false
    → AreI64 (t ∷ ts)
    → let (b, reports) = trip_all (new d) (t ∷ ts) in
      let end = latest d (reopening d t) ts in
      (reports ≡ 1)
      × (check b now
          ≡ (if ltb_ℤ now end then (b, open_until end) else (new d, closed_after_cooldown)))
unfolding check admission compare_exchange new trip_all trip
check-trip_all d t ts now enabled (i, all) =
    let first : max_ℤ closed_cell (window_end d t) ≡ reopening d t =
      ground (arith, window_end-reopening d t i, reopening_bounds d t i) in
    let (a, above) = trip_all_reopened d (reopening d t) ts enabled all (reopening_bounds d t i) in
    rw (enabled, first, a) (refl, ground (arith, enabled, above))

-- A trip at a representable instant never shortens a window that is already open, and leaves an
-- enabled breaker open.
pub trip_extends :
    (b : CircuitBreaker) (now : Timestamp)
    → IsI64 now
    → (b.reopen_at ≤ℤ (trip b now).0.reopen_at)
      × ((is_disabled b ≡ true) ⊎ (closed_cell <ℤ (trip b now).0.reopen_at))
unfolding trip
trip_extends b now i = ground (arith, window_end_bounds b.open_duration now i)
