-- ===== src/Timeout.antt =====
-- `Timeout` of vibeio/src/time/timeout.rs: the race of a future with a sleep. The future is a state `F`
-- with its poll as a function.
pub mod Race
mod Tests
use vibeio.Prelude.{ℕ, Bool, true, false, Option, none, some, List, [], if◌then◌else◌}
use vibeio.Slab.{Slab}
use vibeio.Join.{Poll, ready, pending}
use vibeio.Wheel.{TimerEntry}
use vibeio.Timer.{Timer}
use vibeio.Sleep.{Sleep}
use vibeio.Sleep

pub data Outcome (A : Type 0) : Type 0 where
  output : A → Outcome A
  timeout_error : Outcome A

pub record Timeout (F : Type 0) : Type 0 where
  pub future : F
  pub sleep : Sleep
  pub timed_out : Bool

abbrev pub new : {F : Type 0} → F → ℕ → ℕ → Timeout F
new future now duration = record {
  future = future;
  sleep = Sleep.new now duration;
  timed_out = false;
}

-- The answer, the future, the timer, and the wakers that the sleep's poll wakes.
pub record Raced (F A S : Type 0) : Type 0 where
  pub answer : Poll (Outcome A)
  pub timeout : Timeout F
  pub timer : Timer S
  pub wakes : List ℕ

module _ {F A S : Type 0} ⦃slab : Slab S TimerEntry⦄ (step : F → Poll A × F) where
  -- The future did not finish: the sleep is polled.
  pub poll_sleep : Timeout F → Timer S → ℕ → ℕ → Raced F A S
  poll_sleep t timer now waker =
      let polled = Sleep.poll t.sleep timer now waker in
      record {
        answer = if polled.is_ready then ready timeout_error else pending;
        timeout = record t { sleep = polled.sleep; timed_out = polled.is_ready };
        timer = polled.timer;
        wakes = polled.wakes;
      }

  pub poll : Timeout F → Timer S → ℕ → ℕ → Raced F A S
  unfolding poll_sleep
  poll t timer now waker =
      let (answer, future) = step t.future in
      let rest = poll_sleep (record t { future = future }) timer now waker in
      if t.timed_out
      then record { answer = ready timeout_error; timeout = t; timer = timer; wakes = [] }
      else elim answer [
        | ready value ↦ record {
          answer = ready (output value);
          timeout = record t { future = future };
          timer = timer;
          wakes = [];
        }
        | pending ↦ rest
      ]
