-- ===== src/Interval/Skip.antt =====
-- The ticks of an interval that skips what it missed.
use vibeio.Prelude.{
  ℕ, zero, suc, ◌+◌, ◌-◌, ◌≤◌, ◌<◌, ◌^◌, ◌≡◌, refl, some, arith, sat_sub, leb, max, Bool-cases, inl,
  inr,
}
use vibeio.Interval.{Interval, tick, skip, base_next, pass_now, skip_target, add_periods}

-- The loop ends beyond now, on a multiple of the period from where it began, and on the first one
-- beyond now.
pass_now_lem :
    (fuel cnt target now period : ℕ)
    → 0 < period
    → now < target + fuel
    → cnt + fuel < 2 ^ 64 - 1
    → (now < pass_now fuel cnt target now period)
      × (pass_now fuel cnt target now period ≤ max target (now + period))
      × ((n : ℕ) × (pass_now fuel cnt target now period ≡ add_periods n target period))
unfolding pass_now add_periods
pass_now_lem zero cnt target now period p f c = (omega arith, omega arith, (0, refl))
pass_now_lem (suc fuel) cnt target now period p f c = elim (Bool-cases (leb target now)) [
  | inl q ↦
      let (past, near, (n, multiple)) =
        pass_now_lem fuel (suc cnt) (target + period) now period p (ground arith) (omega arith) in
      let step : pass_now (suc fuel) cnt target now period
          ≡ pass_now fuel (suc cnt) (target + period) now period =
        ground arith in
      (ground arith, ground arith, (suc n, ground arith))
  | inr q ↦ (ground arith, ground arith, (0, ground arith))
]

-- A tick of an interval that skips, with a period of a nanosecond or more and a deadline that
-- passed less than 2 ^ 64 - 2 nanoseconds ago, sleeps until an instant beyond now that lies a whole
-- number of periods after the old deadline, and no more than one period beyond now if that deadline
-- has passed; the next deadline is one period later.
pub skip_tick :
    (interval : Interval) (now again : ℕ)
    → interval.missed_tick_behavior ≡ skip
    → 0 < interval.period
    → now - base_next interval now < 2 ^ 64 - 2
    → (target : ℕ) × (now < target)
      × (target ≤ max (base_next interval now) (now + interval.period))
      × ((n : ℕ) × (target ≡ add_periods n (base_next interval now) interval.period))
      × ((tick interval now again).interval.next_deadline ≡ some (target + interval.period))
      × ((tick interval now again).sleep ≡ some (sat_sub target again))
      × ((tick interval now again).ticks ≡ 1)
unfolding tick skip_target add_periods
skip_tick interval now again h p room =
    let base = base_next interval now in
    let (past, near, (n, multiple)) =
      pass_now_lem (suc (now - base)) 0 base now interval.period p (omega arith) (omega arith) in
    elim (Bool-cases (leb base now)) [
      | inl q ↦
          let same : skip_target interval now
              ≡ pass_now (suc (now - base)) 0 base now interval.period =
            ground arith in
          (
            skip_target interval now,
            ground arith,
            ground arith,
            (n, ground arith),
            ground arith,
            ground arith,
            ground arith,
          )
      | inr q ↦
          let same : skip_target interval now ≡ base = ground arith in
          (
            skip_target interval now,
            ground arith,
            ground arith,
            (0, ground arith),
            ground arith,
            ground arith,
            ground arith,
          )
    ]
