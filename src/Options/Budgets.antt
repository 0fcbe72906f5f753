-- ===== src/Options/Budgets.antt =====
-- src/options.rs: validation of the finite time budgets. `overflows d` stands for the platform's
-- `Instant::now().checked_add(d).is_none()`, sampled when a builder runs.
use amalgam.Prelude.{Bool, true, false, not, List, [], ◌∷◌, any, if◌then◌else◌, ◌&&◌}
use amalgam.Prelude.Result.{Result, ok, err, ◌>>=◌, ◌>>◌, reject_if}
use amalgam.Time.Duration.{Duration, is_zero}
use amalgam.Time.Timeout.{Timeout, infinite, after}
use amalgam.Error.{ConfigError, deadline_out_of_range, auto_clone_without_cloner}
use amalgam.Options.Values.{BudgetState, valid, out_of_range, inline, runtime}
use amalgam.Options.Entry.{EntryOptions, memory_lock_timeout, distributed_lock_timeout, size}

abbrev pub timeouts : EntryOptions → List Timeout
timeouts o =
    memory_lock_timeout o
    ∷ distributed_lock_timeout o
    ∷ o.factory_soft_timeout
    ∷ o.factory_hard_timeout
    ∷ o.distributed_soft_timeout
    ∷ o.distributed_hard_timeout
    ∷ []

-- The same without the entry at index 1.
abbrev pub timer_timeouts : EntryOptions → List Timeout
timer_timeouts o =
    memory_lock_timeout o
    ∷ o.factory_soft_timeout
    ∷ o.factory_hard_timeout
    ∷ o.distributed_soft_timeout
    ∷ o.distributed_hard_timeout
    ∷ []

abbrev pub overflowing : (Duration → Bool) → Timeout → Bool
overflowing overflows (after d) = overflows d
overflowing overflows infinite = false

abbrev pub needs_timer : Timeout → Bool
needs_timer (after d) = not (is_zero d)
needs_timer infinite = false

-- The state that `refresh_budgets` assigns on either of its paths.
unfoldable pub budget_state : (Duration → Bool) → EntryOptions → BudgetState
budget_state overflows o =
    if any (overflowing overflows) (timeouts o)
    then out_of_range
    else valid (if any needs_timer (timer_timeouts o) then runtime else inline)

unfoldable pub refresh_budgets : (Duration → Bool) → EntryOptions → EntryOptions
unfolding budget_state
refresh_budgets overflows o = record o { budgets = budget_state overflows o }

abbrev pub check_budgets : BudgetState → Result (Unit {0}) ConfigError
check_budgets (valid _) = ok tt
check_budgets out_of_range = err deadline_out_of_range

unfoldable pub validate : EntryOptions → Result (Unit {0}) ConfigError
validate o = size o >>= λ _. check_budgets o.budgets

abbrev pub timer_of : BudgetState → Bool
timer_of (valid inline) = false
timer_of (valid runtime) = true
timer_of out_of_range = true

unfoldable pub requires_timer_runtime : EntryOptions → Bool
requires_timer_runtime o = timer_of o.budgets

unfoldable pub validate_with_cloner : EntryOptions → Bool → Result (Unit {0}) ConfigError
validate_with_cloner o has_cloner =
    validate o >> reject_if (o.enable_auto_clone && not has_cloner) auto_clone_without_cloner
