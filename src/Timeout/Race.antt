-- ===== src/Timeout/Race.antt =====
-- Who wins the race.
use vibeio.Prelude.{ℕ, ◌+◌, ◌-◌, ◌≤◌, ◌<◌, ◌^◌, ◌≡◌, ◌⊎◌, true, false, arith}
use vibeio.Slab.{Slab}
use vibeio.Join.{Poll, ready, pending}
use vibeio.Wheel.{TimerEntry}
use vibeio.Timer.{Timer, nanos_per_milli}
use vibeio.Sleep.{Sleep}
use vibeio.Sleep
use vibeio.Sleep.Poll.{ready_at_deadline}
use vibeio.Timeout.{output, timeout_error, Timeout, poll, poll_sleep}

module _ {F A S : Type 0} ⦃slab : Slab S TimerEntry⦄ (step : F → Poll A × F) where
  -- Of a race that is not over, whose deadline is less than 2 ^ 64 nanoseconds beyond the timer's
  -- instant: a future that finishes wins, also when its deadline has passed. A timeout is answered
  -- only where the future has not finished and the sleep is over: its deadline has come, or is less
  -- than a millisecond beyond the timer's instant; and every poll after it gives a timeout again
  -- and leaves the race as it is.
  pub timeout_at_deadline :
      (t : Timeout F) (timer : Timer S) (now waker : ℕ)
      → t.timed_out ≡ false
      → t.sleep.fired ≡ false
      → t.sleep.deadline - timer.instant < 2 ^ 64
      → ((value : A)
          → (step t.future).0 ≡ ready value
          → (poll step t timer now waker).answer ≡ ready (output value))
        × ((poll step t timer now waker).answer ≡ ready timeout_error
            → ((step t.future).0 ≡ pending)
              × ((t.sleep.deadline ≤ now) ⊎ (t.sleep.deadline < timer.instant + nanos_per_milli))
              × ((timer' : Timer S) (now' waker' : ℕ)
                  → let after = (poll step t timer now waker).timeout in
                    ((poll step after timer' now' waker').answer ≡ ready timeout_error)
                    × ((poll step after timer' now' waker').timeout ≡ after)))
  unfolding poll poll_sleep
  timeout_at_deadline t timer now waker live awake room = (
    λ value h. ground arith,
    λ h.
        let over : (Sleep.poll t.sleep timer now waker).is_ready ≡ true = ground arith in
        (
          ground arith,
          ready_at_deadline t.sleep timer now waker awake room over,
          λ timer' now' waker'. (ground arith, ground arith),
        ),
  )
