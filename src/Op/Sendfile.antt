-- ===== src/Op/Sendfile.antt =====
-- `SendfileOp` of vibeio/src/op/sendfile.rs.
use vibeio.Prelude.{ℕ, true, Option, none, Result}
use vibeio.Slab.{Slab}
use vibeio.Join.{Poll}
use vibeio.Handle.{InnerRawHandle}
use vibeio.Uring.{HandleRegistration, Completion, UringDriver}
use vibeio.Uring.Ring.{Sqes}
use vibeio.Op
use vibeio.Op.{unit_box, CompletionOp, Poller, poll_result_or_wait}

pub record SendfileOp : Type 0 where
  pub fd_in : ℕ
  pub fd_out : InnerRawHandle
  pub len : ℕ
  pub completion_token : Option ℕ

unfoldable pub new : ℕ → InnerRawHandle → ℕ → SendfileOp
new fd_in fd_out len = record { fd_in = fd_in; fd_out = fd_out; len = len; completion_token = none }

module _ {D : Type 0} ⦃poller : Poller D⦄ where
  -- `result` is what the system call `sendfile` gave, in which EAGAIN is `would_block`.
  unfoldable pub poll_poll : Result ℕ → D → SendfileOp → ℕ → Poll (Result ℕ) × D
  unfolding poll_result_or_wait
  poll_poll result d op waker = poll_result_or_wait result d op.fd_out.token waker true

module _ {S C R : Type 0} ⦃slab : Slab S HandleRegistration⦄ ⦃pool : Slab C Completion⦄
    ⦃sqes : Sqes R⦄ where
  -- Nothing is left with the driver but an empty box.
  unfoldable pub drop : UringDriver S C R → SendfileOp → UringDriver S C R
  unfolding Op.drop
  drop d op = Op.drop d op.completion_token unit_box
