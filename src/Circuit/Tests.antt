-- ===== src/Circuit/Tests.antt =====
-- src/circuit.rs: a breaker that stays open for a microsecond, and one run of its threads.
use amalgam.Prelude.{◌+◌, ◌≡◌, refl, true, false, [], ◌∷◌, not, arith, if◌then◌else◌}
use amalgam.Prelude.Int.{pos, ltb_ℤ, eqb_ℤ, ◌+ℤ◌}
use amalgam.Prelude.Word.{i64_try_from}
use amalgam.Time.Duration.{duration_ticks_wide}
use amalgam.Time.Timestamp.{saturating_add}
use amalgam.Circuit.{
  open_until, closed_after_cooldown, closed_cell, is_closed, is_closed_without_clock, check, settle,
  admission, compare_exchange, trip, close, new, window_end,
}
use amalgam.Circuit.Laws.{trip_all, latest, reopening, check-trip_all}
use amalgam.Circuit.Threads.{
  trips, calls_close, Reach, here, next, Reach-balance, one_if, start, tripped, close_loaded,
}

-- A closed breaker is closed by no call of `close`, and a tripped one is open until its window ends.
breaker_runs :
    (close (new 1_000) ≡ (new 1_000, false))
    × ((is_closed (trip (new 1_000) (pos 5)).0 (pos 14)).1 ≡ false)
    × ((is_closed (trip (new 1_000) (pos 5)).0 (pos 15)).1 ≡ true)
    × (is_closed_without_clock (new 1_000) ≡ true)
unfolding close new is_closed trip check settle admission compare_exchange window_end saturating_add
    is_closed_without_clock duration_ticks_wide i64_try_from ◌+ℤ◌
breaker_runs = (refl, refl, refl, refl)

check-trip_all_example :
    ((trip_all (new 1_000) (pos 5 ∷ pos 8 ∷ [])).1 ≡ 1)
    × (check (trip_all (new 1_000) (pos 5 ∷ pos 8 ∷ [])).0 (pos 9) ≡ (
        if ltb_ℤ (pos 9) (latest 1_000 (reopening 1_000 (pos 5)) (pos 8 ∷ []))
        then (
          (trip_all (new 1_000) (pos 5 ∷ pos 8 ∷ [])).0,
          open_until (latest 1_000 (reopening 1_000 (pos 5)) (pos 8 ∷ [])),
        )
        else (new 1_000, closed_after_cooldown)))
check-trip_all_example =
    check-trip_all 1_000 (pos 5) (pos 8 ∷ []) (pos 9) refl
      ((omega arith, omega arith), ((omega arith, omega arith), tt))

reopens : latest 1_000 (reopening 1_000 (pos 5)) (pos 8 ∷ []) ≡ pos 18
unfolding ◌+ℤ◌
reopens = refl

-- One caller trips the breaker, and another loads it in `close`.
abbrev run : Reach 1_000 (close_loaded (tripped (start 1_000) (pos 5)) 1)
unfolding start tripped new
run = next (next here (trips (pos 5) (omega arith, omega arith) refl)) (calls_close 1 refl refl)

Reach-balance_example :
    (close_loaded (tripped (start 1_000) (pos 5)) 1).opened
    ≡ (close_loaded (tripped (start 1_000) (pos 5)) 1).closings
      + one_if (
          not
            (eqb_ℤ (close_loaded (tripped (start 1_000) (pos 5)) 1).breaker.reopen_at closed_cell))
Reach-balance_example = Reach-balance run
