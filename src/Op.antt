-- ===== src/Op.antt =====
-- The operations of vibeio/src/op: what their `poll_poll`, `poll_completion` and `drop` share. An
-- operation is the interface `CompletionOp`, which the modules below fill; the driver of the
-- completions is that of Uring, and the one that is polled is the interface `Poller`.
pub mod Buffer
pub mod Await
pub mod Dropped
pub mod OverMio
pub mod Paths
mod Tests
pub mod Read
pub mod ReadAt
pub mod Recv
pub mod Write
pub mod WriteAt
pub mod Send
pub mod Fsync
pub mod MkDir
pub mod Unlink
pub mod Rename
pub mod Symlink
pub mod HardLink
pub mod Open
pub mod WaitPid
pub mod Accept
pub mod Connect
pub mod Splice
pub mod Sendfile
use vibeio.Prelude.{
  ℕ, ◌-◌, ◌^◌, ◌≡◌, Bool, true, false, Option, none, some, Result, ok, err, IoError, unsupported,
  os, would_block, leb, if◌then◌else◌,
}
use vibeio.Slab.{Slab}
use vibeio.Join.{Poll, ready, pending}
use vibeio.Uring.{HandleRegistration, Completion, UringDriver}
use vibeio.Uring.Ring.{Sqes, Sqe, Opcode, operation}
use vibeio.Uring.Calls.{submit_completion, CompletionIoResult, finished, retry, submit_err}
use vibeio.Uring.Queue.{get_completion_result, set_completion_waker, ignore_completion}

-- `submit_poll` of a driver, with the token, the waker, and whether to wait for writing.
pub record Poller (D : Type 0) : Type 0 where
  pub submit_poll : D → ℕ → ℕ → Bool → Result (Unit {0}) × D

-- An operation `O`. `entry` is what `build_completion_entry` makes, `built` the
-- operation after it, and `complete` what is done with a result that is not negative.
pub record CompletionOp (O : Type 0) : Type 1 where
  pub Output : Type 0
  pub completion_token : O → Option ℕ
  pub set_completion_token : O → Option ℕ → O
  pub entry : O → Result Opcode
  pub built : O → O
  pub complete : O → ℕ → Output × O
  pub token-set :
      (op : O) (token : Option ℕ) → completion_token (set_completion_token op token) ≡ token

-- `from_raw_os_error(-result)` of a negative i32, and whether an i32 is negative.
unfoldable pub is_negative : ℕ → Bool
is_negative result = leb (2 ^ 31) result

unfoldable pub os_error : ℕ → IoError
os_error result = os (2 ^ 32 - result)

-- `Box::new(())`.
abbrev pub unit_box : ℕ
unit_box = 0

module _ {D : Type 0} ⦃poller : Poller D⦄ where
  unfoldable pub wait_for : D → ℕ → ℕ → Bool → Poll (Result ℕ) × D
  wait_for d token waker writable =
      let (submitted, d') = poller.submit_poll d token waker writable in
      elim submitted [ err e ↦ (ready (err e), d') | ok _ ↦ (pending, d') ]

  -- `poll_result_or_wait`.
  unfoldable pub poll_result_or_wait : Result ℕ → D → ℕ → ℕ → Bool → Poll (Result ℕ) × D
  unfolding wait_for
  poll_result_or_wait (ok value) d token waker writable = (ready (ok value), d)
  poll_result_or_wait (err would_block) d token waker writable = wait_for d token waker writable
  poll_result_or_wait (err (os code)) d token waker writable = (ready (err (os code)), d)
  poll_result_or_wait (err IoError.not_found) d token waker writable =
      (ready (err IoError.not_found), d)
  poll_result_or_wait (err IoError.not_connected) d token waker writable =
      (ready (err IoError.not_connected), d)
  poll_result_or_wait (err unsupported) d token waker writable = (ready (err unsupported), d)
  poll_result_or_wait (err IoError.write_zero) d token waker writable =
      (ready (err IoError.write_zero), d)
  poll_result_or_wait (err IoError.interrupted) d token waker writable =
      (ready (err IoError.interrupted), d)
  poll_result_or_wait (err IoError.invalid_input) d token waker writable =
      (ready (err IoError.invalid_input), d)
  poll_result_or_wait (err IoError.invalid_data) d token waker writable =
      (ready (err IoError.invalid_data), d)
  poll_result_or_wait (err IoError.unexpected_eof) d token waker writable =
      (ready (err IoError.unexpected_eof), d)
  poll_result_or_wait (err IoError.other) d token waker writable = (ready (err IoError.other), d)

abbrev as_entry : Result Opcode → ℕ → Result Sqe
as_entry (ok opcode) key = ok (operation opcode key)
as_entry (err e) key = err e

module _ {O : Type 0} ⦃operations : CompletionOp O⦄ where
  -- What follows the result in every `poll_completion`.
  unfoldable pub finish : O → ℕ → Poll (Result operations.Output) × O
  unfolding is_negative os_error
  finish op result =
      if is_negative result
      then (ready (err (os_error result)), op)
      else (let (output, op') = operations.complete op result in (ready (ok output), op'))

module _ {S C R O : Type 0} ⦃slab : Slab S HandleRegistration⦄ ⦃pool : Slab C Completion⦄
    ⦃sqes : Sqes R⦄ ⦃operations : CompletionOp O⦄ where
  -- An operation that is in flight.
  unfoldable pub poll_in_flight :
      UringDriver S C R → O → ℕ → ℕ → Poll (Result operations.Output) × O × UringDriver S C R
  unfolding finish get_completion_result set_completion_waker
  poll_in_flight d op token waker =
      let (completed, completions) = get_completion_result d.completions token in
      elim completed [
        | some result ↦
            let (answer, op') = finish (operations.set_completion_token op none) result in
            (answer, op', record d { completions = completions })
        | none ↦
            (pending, op, record d { completions = set_completion_waker d.completions token waker })
      ]

  -- An operation that is polled for the first time.
  unfoldable pub poll_first :
      UringDriver S C R → O → ℕ → Poll (Result operations.Output) × O × UringDriver S C R
  unfolding finish submit_completion
  poll_first d op waker =
      let op' = operations.built op in
      let (submitted, d') = submit_completion d (as_entry (operations.entry op)) waker in
      elim submitted [
        | finished result ↦ let (answer, op'') = finish op' result in (answer, op'', d')
        | retry token ↦ (pending, operations.set_completion_token op' (some token), d')
        | submit_err e ↦ (ready (err e), op', d')
      ]

  -- `poll_completion`.
  unfoldable pub poll_completion :
      UringDriver S C R → O → ℕ → Poll (Result operations.Output) × O × UringDriver S C R
  unfolding poll_in_flight poll_first
  poll_completion d op waker = elim (operations.completion_token op) [
    | some token ↦ poll_in_flight d op token waker
    | none ↦ poll_first d op waker
  ]

module _ {S C R : Type 0} ⦃slab : Slab S HandleRegistration⦄ ⦃pool : Slab C Completion⦄
    ⦃sqes : Sqes R⦄ where
  -- What the `drop` of every operation does, where a driver is current, with its token and the box
  -- that it makes.
  unfoldable pub drop : UringDriver S C R → Option ℕ → ℕ → UringDriver S C R
  unfolding ignore_completion
  drop d none kept = d
  drop d (some token) kept = record d { completions = ignore_completion d.completions token kept }
