-- ===== src/Interval.antt =====
-- `Interval` of vibeio/src/time/interval.rs. Instants and durations are numbers of nanoseconds. `tick`
-- reads the clock twice, and both readings are arguments; what it sleeps for is among its results.
pub mod Skip
pub mod CatchUp
mod Tests
use vibeio.Prelude.{
  ℕ, zero, suc, ◌+◌, ◌-◌, ◌*◌, ◌/◌, ◌%◌, ◌^◌, Bool, true, false, Option, none, some, ltb, leb, ◌==◌,
  if◌then◌else◌, add64, sat_sub, u64_mod,
}

pub data MissedTickBehavior : Type 0 where
  skip : MissedTickBehavior
  catch_up : MissedTickBehavior

pub record Interval : Type 0 where
  pub period : ℕ
  pub next_deadline : Option ℕ
  pub missed_tick_behavior : MissedTickBehavior

-- The interval after the tick, the number of ticks, and the duration of the sleep if there is one.
pub record Tick : Type 0 where
  pub interval : Interval
  pub ticks : ℕ
  pub sleep : Option ℕ

abbrev pub new : ℕ → Interval
new period = record { period = period; next_deadline = none; missed_tick_behavior = skip }

abbrev pub set_missed_tick_behavior : Interval → MissedTickBehavior → Interval
set_missed_tick_behavior interval behavior = record interval { missed_tick_behavior = behavior }

abbrev pub reset : Interval → Interval
reset interval = record interval { next_deadline = none }

-- `next_deadline.unwrap_or_else(|| now + period)`.
abbrev pub base_next : Interval → ℕ → ℕ
base_next interval now = elim interval.next_deadline [
  | none ↦ now + interval.period
  | some deadline ↦ deadline
]

-- `cnt.saturating_add(1)`.
abbrev pub count_up : ℕ → ℕ
count_up cnt = if cnt == u64_mod - 1 then cnt else suc cnt

-- The loop that moves the target past now. Each round moves it by a period of a nanosecond or more, so
-- that a fuel of `now - target` and one more is enough.
pub pass_now : ℕ → ℕ → ℕ → ℕ → ℕ → ℕ
pass_now zero cnt target now period = target
pass_now (suc fuel) cnt target now period =
    let rest = pass_now fuel (count_up cnt) (target + period) now period in
    if leb target now
    then (if count_up cnt == u64_mod - 1 then target + period else rest)
    else target

pub skip_target : Interval → ℕ → ℕ
unfolding pass_now
skip_target interval now =
    let target = base_next interval now in
    if leb target now
    then (if interval.period == 0
        then now
        else pass_now (suc (now - target)) 0 target now interval.period)
    else target

-- `for _ in 0..missed { new_next += period }`.
pub add_periods : ℕ → ℕ → ℕ → ℕ
add_periods zero next period = next
add_periods (suc missed) next period = add_periods missed (next + period) period

-- `(elapsed / period) as u64 + 1`, where the period is not 0.
abbrev pub missed_ticks : ℕ → ℕ → ℕ
missed_ticks elapsed zero = 0
missed_ticks elapsed (suc n) = add64 (elapsed / suc n % u64_mod) 1

-- `again` is the clock at the second reading.
pub tick : Interval → ℕ → ℕ → Tick
unfolding skip_target add_periods
tick interval now again =
    let base = base_next interval now in
    let missed = missed_ticks (now - base) interval.period in
    elim interval.missed_tick_behavior [
      | skip ↦
          let target = skip_target interval now in
          record {
            interval = record interval { next_deadline = some (target + interval.period) };
            ticks = 1;
            sleep = some (sat_sub target again);
          }
      | catch_up ↦
          if ltb now base
          then record {
            interval = record interval { next_deadline = some (base + interval.period) };
            ticks = 1;
            sleep = some (sat_sub base again);
          }
          else if interval.period == 0
          then record {
            interval = record interval { next_deadline = some (again + interval.period) };
            ticks = 1;
            sleep = none;
          }
          else record {
            interval = record interval {
              next_deadline = some (add_periods missed base interval.period + interval.period);
            };
            ticks = missed;
            sleep = none;
          }
    ]
