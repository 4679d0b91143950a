-- ===== src/Sleep.antt =====
-- `Sleep` of vibeio/src/time/sleep.rs and `Timeout` of vibeio/src/time/timeout.rs, over the timer. The
-- clock is an argument of each call, and so is the timer, which is the one of the current runtime; a
-- future's field `timer` holds that same timer.
pub mod Poll
mod Tests
use vibeio.Prelude.{
  ℕ, ◌+◌, Bool, true, false, Option, none, some, List, [], ◌∷◌, ◌++◌, Result, leb, if◌then◌else◌,
}
use vibeio.Slab.{Slab}
use vibeio.Wheel.{TimerEntry, TimerHandle}
use vibeio.Timer.{Timer, submit}
use vibeio.Timer

pub data ZeroBehavior : Type 0 where
  immediate : ZeroBehavior
  yield : ZeroBehavior

pub record Sleep : Type 0 where
  pub handle : Option TimerHandle
  pub fired : Bool
  pub yield_scheduled : Bool
  pub zero_behavior : ZeroBehavior
  pub deadline : ℕ

abbrev pub new_with_zero_behavior : ℕ → ℕ → ZeroBehavior → Sleep
new_with_zero_behavior now duration zero_behavior = record {
  handle = none;
  fired = false;
  yield_scheduled = false;
  zero_behavior = zero_behavior;
  deadline = now + duration;
}

abbrev pub new : ℕ → ℕ → Sleep
new now duration = new_with_zero_behavior now duration immediate

abbrev pub sleep_until : ℕ → Sleep
sleep_until deadline = new_with_zero_behavior 0 deadline immediate

-- What a poll gives: whether it is ready, the future, the timer, and the wakers that it wakes.
pub record Polled (S : Type 0) : Type 0 where
  pub is_ready : Bool
  pub sleep : Sleep
  pub timer : Timer S
  pub wakes : List ℕ

module _ {S : Type 0} where
  -- `wakes` is what has been woken so far.
  pub handle_immediate_wakeup : Sleep → Timer S → List ℕ → ℕ → Polled S
  handle_immediate_wakeup sleep timer wakes waker = elim sleep.zero_behavior [
    | immediate ↦ record {
      is_ready = true;
      sleep = record sleep { fired = true };
      timer = timer;
      wakes = wakes;
    }
    | yield ↦
        if sleep.yield_scheduled
        then record {
          is_ready = true;
          sleep = record sleep { fired = true };
          timer = timer;
          wakes = wakes;
        }
        else record {
          is_ready = false;
          sleep = record sleep { yield_scheduled = true };
          timer = timer;
          wakes = wakes ++ waker ∷ [];
        }
  ]

module _ {S : Type 0} ⦃slab : Slab S TimerEntry⦄ where
  abbrev pub cancel_handle : Option TimerHandle → Timer S → Timer S
  cancel_handle none timer = timer
  cancel_handle (some handle) timer = Timer.cancel timer handle

  pub reset : Sleep → Timer S → ℕ → Sleep × Timer S
  reset sleep timer deadline = (
    record sleep { handle = none; fired = false; yield_scheduled = false; deadline = deadline },
    cancel_handle sleep.handle timer,
  )

  -- The first poll sets the timer.
  pub first_poll : Sleep → Timer S → ℕ → Polled S
  unfolding handle_immediate_wakeup
  first_poll sleep timer waker =
      let (handle, wakes, timer') = submit timer sleep.deadline waker in
      elim handle [
        | some h ↦ record {
          is_ready = false;
          sleep = record sleep { handle = some h };
          timer = timer';
          wakes = wakes;
        }
        | none ↦ handle_immediate_wakeup sleep timer' wakes waker
      ]

  -- A later poll looks at the clock, and sets the timer again if the wake-up came early.
  pub later_poll : Sleep → TimerHandle → Timer S → ℕ → ℕ → Polled S
  later_poll sleep old timer now waker =
      let (handle, wakes, timer') = submit (Timer.cancel timer old) sleep.deadline waker in
      if leb sleep.deadline now
      then record {
        is_ready = true;
        sleep = record sleep { fired = true; handle = none };
        timer = timer;
        wakes = [];
      }
      else elim handle [
        | some h ↦ record {
          is_ready = false;
          sleep = record sleep { handle = some h };
          timer = timer';
          wakes = wakes;
        }
        | none ↦ record {
          is_ready = true;
          sleep = record sleep { fired = true; handle = none };
          timer = timer';
          wakes = wakes;
        }
      ]

  pub poll : Sleep → Timer S → ℕ → ℕ → Polled S
  unfolding first_poll later_poll
  poll sleep timer now waker =
      if sleep.fired
      then record { is_ready = true; sleep = sleep; timer = timer; wakes = [] }
      else elim sleep.handle [
        | none ↦ first_poll sleep timer waker
        | some old ↦ later_poll sleep old timer now waker
      ]

  -- `Drop`.
  pub drop : Sleep → Timer S → Timer S
  drop sleep timer = cancel_handle sleep.handle timer
