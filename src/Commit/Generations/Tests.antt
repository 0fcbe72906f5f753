-- ===== src/Commit/Generations/Tests.antt =====
-- src/commit.rs: a mutation draws a generation, and a reader captures it.
use amalgam.Prelude.{ℕ, ◌≡◌, refl, true, false}
use amalgam.Prelude.Int.{pos}
use amalgam.Commit.Generations.{
  Fence, advance_revision, stamp, is_current, passive_is_current, stamped, advanced, System, start,
  numbers, fence_at, moves, advances, stamps, fences, loads, Run, here, next, loaded,
}
use amalgam.Commit.Generations.Held.{NoLater}
use amalgam.Commit.Generations.Safety.{
  one_current, passive_is_current-Quiet, advance_revision-overtakes,
}

abbrev drawn : System
drawn =
    moves (start 5) 0 (advance_revision (start 5).shared).0
      (numbers (pos 9) (advance_revision (start 5).shared).1)

abbrev covered : System
covered = moves drawn 0 (stamp drawn.shared (pos 9)) (stamped (pos 9) 1)

abbrev fenced : System
fenced = moves covered 0 covered.shared (advanced (pos 9) (fence_at covered.shared 1))

abbrev the_fence : Fence
the_fence = record { generation = 1; captured_epoch = 5 }

fenced-Run : Run (start 5) fenced
unfolding advance_revision
fenced-Run =
    next (next (next here (advances 0 (pos 9) refl refl)) (stamps 0 (pos 9) 1 refl refl))
      (fences 0 (pos 9) 1 refl refl)

abbrev read_on : System
read_on = moves fenced 1 fenced.shared (loaded fenced.shared.generation)

fenced-holds : fenced.task 0 ≡ advanced (pos 9) the_fence
unfolding advance_revision stamp
fenced-holds = refl

fenced-is_current : is_current fenced.shared the_fence ≡ true
unfolding advance_revision stamp is_current
fenced-is_current = refl

one_current_example : ◌≡◌ {A = ℕ} 0 0 × NoLater (pos 9) fenced.shared.timestamp
one_current_example =
    one_current 0 0 (pos 9) (pos 9) the_fence the_fence fenced-Run fenced-holds fenced-holds
      fenced-is_current fenced-is_current

read_on-passive : passive_is_current read_on.shared the_fence ≡ true
unfolding advance_revision stamp is_current passive_is_current
read_on-passive = refl

passive_is_current-Quiet_example :
    (passive_is_current fenced.shared the_fence ≡ true)
    × (read_on.shared.generation ≡ fenced.shared.generation)
    × (read_on.shared.epoch ≡ fenced.shared.epoch)
unfolding advance_revision stamp
passive_is_current-Quiet_example =
    passive_is_current-Quiet {s = fenced} {t = read_on} 0 the_fence fenced-Run
      (next here (loads 1 refl refl)) refl read_on-passive

advance_revision-overtakes_example :
    is_current (advance_revision read_on.shared).0 the_fence ≡ false
unfolding advance_revision stamp
advance_revision-overtakes_example =
    advance_revision-overtakes {s = fenced} {t = read_on} 0 the_fence fenced-Run
      (next here (loads 1 refl refl)) refl 2 refl
