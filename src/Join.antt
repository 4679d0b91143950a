-- ===== src/Join.antt =====
-- `JoinState`, `SpawnFuture` and `JoinHandle` of vibeio/src/executor.rs. The inner future is a state
-- `F` with its poll as a function; wakers are numbers.
pub mod Deliver
mod Tests
use vibeio.Prelude.{ℕ, Bool, true, false, Option, none, some, List, [], ◌∷◌, ◌==◌, if◌then◌else◌}

pub data Poll (A : Type 0) : Type 0 where
  ready : A → Poll A
  pending : Poll A

pub record JoinState (T : Type 0) : Type 0 where
  pub output : Option T
  pub waker : Option ℕ
  pub canceled : Bool

module _ {T : Type 0} where
  -- The state that `spawn` makes.
  pub spawned : JoinState T
  spawned = record { output = none; waker = none; canceled = false }

  pub cancel : JoinState T → JoinState T
  cancel state = record state { canceled = true }

-- A waker that would wake the same task is kept.
pub update_waker_slot : Option ℕ → ℕ → Option ℕ
update_waker_slot none waker = some waker
update_waker_slot (some old) waker = if old == waker then some old else some waker

-- `take` of the waker, and its `wake`.
abbrev pub woken : Option ℕ → List ℕ
woken none = []
woken (some waker) = waker ∷ []

-- What a poll of the task gives: the future, the state, the wakers that are woken, and the answer.
pub record Polled (F T : Type 0) : Type 0 where
  pub future : F
  pub state : JoinState T
  pub wakes : List ℕ
  pub answer : Poll (Unit {0})

module _ {F T : Type 0} (step : F → Poll T × F) where
  pub poll_future : Poll T × F → JoinState T → Polled F T
  poll_future (ready value, future) state = record {
    future = future;
    state = record state { output = some value; waker = none };
    wakes = woken state.waker;
    answer = ready tt;
  }
  poll_future (pending, future) state = record {
    future = future;
    state = state;
    wakes = [];
    answer = pending;
  }

  -- `SpawnFuture::poll`.
  pub poll_task : F → JoinState T → Polled F T
  unfolding poll_future
  poll_task future state =
      if state.canceled
      then record { future = future; state = state; wakes = []; answer = ready tt }
      else poll_future (step future) state

module _ {T : Type 0} where
  -- `JoinHandle::poll`.
  pub poll_handle : JoinState T → ℕ → Poll T × JoinState T
  unfolding update_waker_slot
  poll_handle state waker = elim state.output [
    | some value ↦ (ready value, record state { output = none })
    | none ↦ (pending, record state { waker = update_waker_slot state.waker waker })
  ]
