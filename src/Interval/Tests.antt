-- ===== src/Interval/Tests.antt =====
-- Ticks of an interval of 100 nanoseconds.
use vibeio.Prelude.{ℕ, ◌+◌, ◌-◌, ◌*◌, ◌≤◌, ◌<◌, ◌≡◌, refl, none, some, arith, max, sat_sub}
use vibeio.Interval.{Interval, tick, skip, catch_up, add_periods}
use vibeio.Interval.Skip.{skip_tick}
use vibeio.Interval.CatchUp.{late_tick, late_tick_drops_a_deadline}

abbrev skipping : Interval
skipping = record { period = 100; next_deadline = some 1000; missed_tick_behavior = skip }

abbrev catching_up : Interval
catching_up = record { period = 100; next_deadline = some 1000; missed_tick_behavior = catch_up }

skip_tick_run :
    (target : ℕ) × (1250 < target)
    × (target ≤ max 1000 1350)
    × ((n : ℕ) × (target ≡ add_periods n 1000 100))
    × ((tick skipping 1250 1260).interval.next_deadline ≡ some (target + 100))
    × ((tick skipping 1250 1260).sleep ≡ some (sat_sub target 1260))
    × ((tick skipping 1250 1260).ticks ≡ 1)
skip_tick_run = skip_tick skipping 1250 1260 refl (omega arith) (omega arith)

late_tick_run :
    let late = tick catching_up 1250 1260 in
    (0 < late.ticks)
    × (1000 + (late.ticks - 1) * 100 ≤ 1250)
    × (1250 < 1000 + late.ticks * 100)
    × (late.interval.next_deadline ≡ some (1000 + late.ticks * 100 + 100))
    × (late.sleep ≡ none)
late_tick_run = late_tick catching_up 1250 1260 refl (omega arith) (omega arith) (omega arith)

-- Three ticks at 1250; at 1330 the deadline 1300 has passed.
three : (tick catching_up 1250 1260).ticks ≡ 3
unfolding tick
three = refl

late_tick_drops_a_deadline_run :
    let late = tick catching_up 1250 1260 in
    let missed_deadline = 1000 + late.ticks * 100 in
    let next = tick late.interval 1330 1330 in
    (next.ticks ≡ 1)
    × (next.sleep ≡ some (sat_sub (missed_deadline + 100) 1330))
    × (next.interval.next_deadline ≡ some (missed_deadline + 100 + 100))
late_tick_drops_a_deadline_run =
    late_tick_drops_a_deadline catching_up 1250 1260 1330 1330 refl (omega arith) (omega arith)
      (omega arith) (rw three (omega arith)) (rw three (omega arith))
