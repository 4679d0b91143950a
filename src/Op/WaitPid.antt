-- ===== src/Op/WaitPid.antt =====
-- `WaitPidOp` of vibeio/src/op/waitpid.rs.
pub mod Ends
pub mod Owned
mod Tests
use vibeio.Prelude.{
  ℕ, zero, suc, ◌≡◌, Bool, true, false, Option, none, some, List, [], ◌∷◌, Result, ok, err, IoError,
  would_block, other,
}
use vibeio.Join.{Poll, ready, pending}
use vibeio.Handle.{InnerRawHandle}
use vibeio.Calls.{Calls, Waited, exited, running, failed}

pub data WaitPidState : Type 0 where
  init : (pid : ℕ) → WaitPidState
  polling : (pid pidfd : ℕ) → InnerRawHandle → WaitPidState
  done : WaitPidState

unfoldable pub new : ℕ → WaitPidState
new pid = init pid

abbrev status_of : Waited → Result ℕ
status_of (exited status) = ok status
status_of running = err would_block
status_of (failed e) = err e

-- Whether a read of the pidfd says that the child has not exited.
abbrev pub blocks : Result ℕ → Bool
blocks (ok n) = false
blocks (err would_block) = true
blocks (err _) = false

module _ {D : Type 0} ⦃calls : Calls D⦄ where
  unfoldable pub reap : D → ℕ → Result ℕ × D
  reap d pid = let waited = calls.waitpid d pid in (status_of waited.0, waited.1)

  -- Waiting for the pidfd again: the answer, and the driver.
  unfoldable pub wait_again : D → InnerRawHandle → ℕ → Poll (Result ℕ) × D
  wait_again d handle waker =
      let submitted = calls.submit_poll d handle.token waker false in
      elim submitted.0 [ err e ↦ (ready (err e), submitted.1) | ok _ ↦ (pending, submitted.1) ]

  -- The end of an operation that is polled. The state is dropped field by field, so that the pidfd is
  -- closed before the handle is.
  unfoldable pub end_poll : D → ℕ → ℕ → InnerRawHandle → Poll (Result ℕ) × WaitPidState × D
  unfolding reap
  end_poll d pid pidfd handle =
      let reaped = reap d pid in
      (ready reaped.0, done, calls.drop_handle (calls.close reaped.1 pidfd) handle)

  unfoldable pub poll_pidfd : D → ℕ → ℕ → InnerRawHandle → ℕ → Poll (Result ℕ) × WaitPidState × D
  unfolding end_poll wait_again
  poll_pidfd d pid pidfd handle waker =
      let got = calls.read d handle.handle in
      elim (blocks got.0) [
        | true ↦
            let again = wait_again got.1 handle waker in
            (again.0, polling pid pidfd handle, again.1)
        | false ↦ end_poll got.1 pid pidfd handle
      ]

  -- The descriptor and its handle, or the error, with the descriptor closed where it has no handle.
  unfoldable pub open_handle : D → ℕ → Result (ℕ × InnerRawHandle) × D
  open_handle d pid =
      let opened = calls.pidfd_open d pid in
      elim opened.0 [
        | err e ↦ (err e, opened.1)
        | ok pidfd ↦
            let made = calls.new_handle opened.1 pidfd in
            elim made.0 [
              | err e ↦ (err e, calls.close made.1 pidfd)
              | ok handle ↦ (ok (pidfd, handle), made.1)
            ]
      ]

  -- The `loop` of `poll_poll`, and nothing where the fuel is used up.
  unfoldable pub poll_loop : ℕ → D → WaitPidState → ℕ → Option (Poll (Result ℕ) × WaitPidState × D)
  unfolding open_handle poll_pidfd
  poll_loop zero d state waker = none
  poll_loop (suc fuel) d (init pid) waker =
      let opened = open_handle d pid in
      elim opened.0 [
        | err e ↦ some (ready (err e), init pid, opened.1)
        | ok both ↦ poll_loop fuel opened.1 (polling pid both.0 both.1) waker
      ]
  poll_loop (suc fuel) d (polling pid pidfd handle) waker =
      some (poll_pidfd d pid pidfd handle waker)
  poll_loop (suc fuel) d done waker = some (ready (err other), done, d)

  -- The first poll of `poll_completion` waits without a look at the pidfd.
  unfoldable pub start_completion : D → ℕ → ℕ → Poll (Result ℕ) × WaitPidState × D
  unfolding open_handle wait_again
  start_completion d pid waker =
      let opened = open_handle d pid in
      elim opened.0 [
        | err e ↦ (ready (err e), done, opened.1)
        | ok both ↦
            let again = wait_again opened.1 both.1 waker in
            (again.0, polling pid both.0 both.1, again.1)
      ]

  -- The handle is dropped before the pidfd is closed.
  unfoldable pub end_completion : D → ℕ → ℕ → InnerRawHandle → Poll (Result ℕ) × WaitPidState × D
  unfolding reap
  end_completion d pid pidfd handle =
      let reaped = reap d pid in
      (ready reaped.0, done, calls.close (calls.drop_handle reaped.1 handle) pidfd)

  unfoldable pub poll_completion : D → WaitPidState → ℕ → Poll (Result ℕ) × WaitPidState × D
  unfolding start_completion end_completion wait_again
  poll_completion d (init pid) waker = start_completion d pid waker
  poll_completion d (polling pid pidfd handle) waker =
      let got = calls.read d handle.handle in
      elim (blocks got.0) [
        | true ↦
            let again = wait_again got.1 handle waker in
            (again.0, polling pid pidfd handle, again.1)
        | false ↦ end_completion got.1 pid pidfd handle
      ]
  poll_completion d done waker = (ready (err other), done, d)

  -- The drop of a state, field by field: the pidfd is closed before the handle is dropped.
  unfoldable pub drop : D → WaitPidState → D
  drop d (init pid) = d
  drop d (polling pid pidfd handle) = calls.drop_handle (calls.close d pidfd) handle
  drop d done = d
