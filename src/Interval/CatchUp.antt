-- ===== src/Interval/CatchUp.antt =====
-- The ticks of an interval that catches up.
use vibeio.Prelude.{
  ℕ, zero, suc, ◌+◌, ◌-◌, ◌*◌, ◌/◌, ◌≤◌, ◌<◌, ◌^◌, ◌≡◌, none, some, arith, sat_sub,
}
use native.Mathlib.Nat.{div-le_self, div-mul-le_self, lt-div-mul-add, suc-mul}
use vibeio.Interval.{Interval, tick, catch_up, base_next, add_periods, missed_ticks}

add_periods_lem : (missed next period : ℕ) → add_periods missed next period ≡ next + missed * period
unfolding add_periods
add_periods_lem zero next period = omega arith
add_periods_lem (suc missed) next period =
    omega (arith, add_periods_lem missed (next + period) period, suc-mul missed period)

suc-sub-one : (n : ℕ) → suc n - 1 ≡ n
suc-sub-one n = omega arith

missed_ticks_lem :
    (elapsed period : ℕ)
    → 0 < period
    → elapsed < 2 ^ 64 - 1
    → (0 < missed_ticks elapsed period)
      × ((missed_ticks elapsed period - 1) * period ≤ elapsed)
      × (elapsed < missed_ticks elapsed period * period)
missed_ticks_lem elapsed zero p h = absurd (omega arith)
missed_ticks_lem elapsed (suc n) p h =
    let quotient = elapsed / suc n in
    let count : missed_ticks elapsed (suc n) ≡ suc quotient =
      omega (arith, div-le_self elapsed (suc n)) in
    rw count (
      omega arith,
      rw (suc-sub-one quotient) (div-mul-le_self elapsed (suc n)),
      omega (arith, lt-div-mul-add {a = elapsed} p, suc-mul quotient (suc n)),
    )

-- A tick of an interval that catches up, with a period of a nanosecond or more and a deadline that
-- passed less than 2 ^ 64 - 1 nanoseconds ago, returns the number of the deadlines that have
-- passed, without a sleep: the last of them is not beyond now, and the one after it is. It sets the
-- next deadline one period later than that one.
pub late_tick :
    (interval : Interval) (now again : ℕ)
    → interval.missed_tick_behavior ≡ catch_up
    → 0 < interval.period
    → base_next interval now ≤ now
    → now - base_next interval now < 2 ^ 64 - 1
    → let base = base_next interval now in
      let late = tick interval now again in
      (0 < late.ticks)
      × (base + (late.ticks - 1) * interval.period ≤ now)
      × (now < base + late.ticks * interval.period)
      × (late.interval.next_deadline ≡ some (base + late.ticks * interval.period + interval.period))
      × (late.sleep ≡ none)
unfolding tick
late_tick interval now again h p due room =
    let base = base_next interval now in
    let missed = missed_ticks (now - base) interval.period in
    let (a, b, c) = missed_ticks_lem (now - base) interval.period p room in
    let count : (tick interval now again).ticks ≡ missed = ground arith in
    let sleeps : (tick interval now again).sleep ≡ none = ground arith in
    let deadline : (tick interval now again).interval.next_deadline
        ≡ some (base + missed * interval.period + interval.period) =
      ground (arith, add_periods_lem missed base interval.period) in
    rw count (a, omega (arith, b), omega (arith, c), deadline, sleeps)

early_tick :
    (interval : Interval) (deadline now again : ℕ)
    → interval.missed_tick_behavior ≡ catch_up
    → interval.next_deadline ≡ some deadline
    → now < deadline
    → ((tick interval now again).ticks ≡ 1)
      × ((tick interval now again).sleep ≡ some (sat_sub deadline again))
      × ((tick interval now again).interval.next_deadline ≡ some (deadline + interval.period))
unfolding tick
early_tick interval deadline now again h d early = (ground arith, ground arith, ground arith)

-- When an interval that catches up, with a period of a nanosecond or more, had a late tick, whose
-- deadline passed less than 2 ^ 64 - 1 nanoseconds before, the deadline after the ones that it
-- returned is never returned: a tick that comes at or after it, and before the deadline that
-- follows, sleeps until that later one, as if the earlier had not passed.
pub late_tick_drops_a_deadline :
    (interval : Interval) (now again now' again' : ℕ)
    → interval.missed_tick_behavior ≡ catch_up
    → 0 < interval.period
    → base_next interval now ≤ now
    → now - base_next interval now < 2 ^ 64 - 1
    → let late = tick interval now again in
      let missed_deadline = base_next interval now + late.ticks * interval.period in
      missed_deadline ≤ now'
      → now' < missed_deadline + interval.period
      → let next = tick late.interval now' again' in
        (next.ticks ≡ 1)
        × (next.sleep ≡ some (sat_sub (missed_deadline + interval.period) again'))
        × (next.interval.next_deadline ≡ some (missed_deadline + interval.period + interval.period))
unfolding tick
late_tick_drops_a_deadline interval now again now' again' h p due room passed before =
    let (a, b, c, deadline, e) = late_tick interval now again h p due room in
    let late = (tick interval now again).interval in
    let same : late.period ≡ interval.period = ground arith in
    let mode : late.missed_tick_behavior ≡ catch_up = ground arith in
    let next = early_tick late _ now' again' mode deadline before in
    (next.0, next.1, ground (arith, next.2))
