-- ===== src/Timer/Deadline.antt =====
-- `spin_and_get_deadline`: the invariant of the wheel, and the deadline that the executor may sleep to.
use vibeio.Prelude.{
  ℕ, ◌+◌, ◌-◌, ◌≤◌, ◌<◌, ◌^◌, ◌≡◌, ◌⊎◌, inl, inr, refl, none, some, max, arith, ltb, Bool-cases,
}
use vibeio.Slab.{Slab}
use vibeio.Wheel
use vibeio.Wheel.{TimingWheel, TimerEntry, TimerHandle}
use vibeio.Wheel.Invariant.{IsWellFormed}
use vibeio.Wheel.Nearest.{
  nearest_wakeup_least, entries-nearest_wakeup, nearest_wakeup-IsWellFormed, is_empty-none,
}
use vibeio.Wheel.Punctual.{advance-IsWellFormed}
use vibeio.Wheel.Insert.{insert-IsWellFormed}
use vibeio.Wheel.Remove.{remove-IsWellFormed}
use vibeio.Wheel.Advance.{tick-nearest_wakeup}
use vibeio.Timer.{Timer, millis_since, submit, cancel, spin_and_get_deadline}

module _ {S : Type 0} ⦃slab : Slab S TimerEntry⦄ where
  -- `submit` sets timers for later ticks only, so it keeps the wheel well formed.
  pub submit-IsWellFormed :
      (t : Timer S) (deadline waker : ℕ)
      → IsWellFormed t.wheel
      → t.wheel.current_tick + (deadline - t.instant) < 2 ^ 64
      → t.wheel.generation_counter + 1 < 2 ^ 64
      → IsWellFormed (submit t deadline waker).2.wheel
  unfolding submit
  submit-IsWellFormed t deadline waker h room fresh =
      elim (Bool-cases (ltb (millis_since deadline t.instant) 1)) [
        | inl e ↦ rw e h
        | inr e ↦ rw e (insert-IsWellFormed t.wheel waker _ h (ground arith) fresh)
      ]

  pub cancel-IsWellFormed :
      (t : Timer S) (handle : TimerHandle)
      → IsWellFormed t.wheel
      → IsWellFormed (cancel t handle).wheel
  unfolding cancel
  cancel-IsWellFormed t handle h = remove-IsWellFormed t.wheel handle h

  pub spin-IsWellFormed :
      (t : Timer S) (now : ℕ)
      → IsWellFormed t.wheel
      → t.wheel.current_tick + (now - t.instant) < 2 ^ 64
      → IsWellFormed (spin_and_get_deadline t now).timer.wheel
  unfolding spin_and_get_deadline
  spin-IsWellFormed t now h room = elim (Bool-cases (Wheel.is_empty t.wheel)) [
    | inl e ↦ rw e h
    | inr e ↦ rw e (
        nearest_wakeup-IsWellFormed _
          (advance-IsWellFormed t.wheel (millis_since now t.instant) h (omega arith)))
  ]

  -- Over a well formed wheel whose tick stays below 2 ^ 64, the deadline is nothing only if no
  -- timer is left after the spin, and else the time to the tick of the next timer, but one
  -- millisecond at least.
  pub spin_deadline :
      (t : Timer S) (now : ℕ)
      → IsWellFormed t.wheel
      → t.wheel.current_tick + (now - t.instant) < 2 ^ 64
      → let s = spin_and_get_deadline t now in
        ((s.deadline ≡ none) × ((k : ℕ) → slab.get s.timer.wheel.entries k ≡ none))
        ⊎ ((k : ℕ) × (e : TimerEntry) × (slab.get s.timer.wheel.entries k ≡ some e)
            × (s.deadline ≡ some (max (e.expiration_tick - s.timer.wheel.current_tick) 1))
            × ((j : ℕ) (f : TimerEntry)
                → slab.get s.timer.wheel.entries j ≡ some f
                → e.expiration_tick ≤ f.expiration_tick))
  unfolding spin_and_get_deadline
  spin_deadline t now h room = elim (Bool-cases (Wheel.is_empty t.wheel)) [
    | inl e ↦ rw e (inl (refl, is_empty-none t.wheel e))
    | inr e ↦
        let advanced = (Wheel.advance t.wheel (millis_since now t.instant)).1 in
        let formed = advance-IsWellFormed t.wheel (millis_since now t.instant) h (omega arith) in
        rw (e, entries-nearest_wakeup advanced, tick-nearest_wakeup advanced)
          (elim (nearest_wakeup_least advanced formed) [
            | inl (p, vacant) ↦ inl (rw p, vacant)
            | inr (k, f, p, q, least) ↦ inr (k, f, p, rw q, least)
          ])
  ]
