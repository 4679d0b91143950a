-- ===== src/Op/Splice.antt =====
-- `SpliceOp` of vibeio/src/op/splice.rs.
use vibeio.Prelude.{ℕ, ◌%◌, ◌^◌, refl, true, Option, none, Result, ok}
use vibeio.Slab.{Slab}
use vibeio.Join.{Poll}
use vibeio.Handle.{InnerRawHandle}
use vibeio.Uring.{HandleRegistration, Completion, UringDriver}
use vibeio.Uring.Ring.{Sqes, Opcode}
use vibeio.Op
use vibeio.Op.{unit_box, CompletionOp, Poller, poll_result_or_wait}

pub record SpliceOp : Type 0 where
  pub fd_in : ℕ
  pub fd_out : InnerRawHandle
  pub len : ℕ
  pub completion_token : Option ℕ

unfoldable pub new : ℕ → InnerRawHandle → ℕ → SpliceOp
new fd_in fd_out len = record { fd_in = fd_in; fd_out = fd_out; len = len; completion_token = none }

unfoldable pub build_completion_entry : SpliceOp → Result Opcode
build_completion_entry op = ok (Opcode.splice op.fd_in op.fd_out.handle (op.len % 2 ^ 32))

unfoldable pub complete : SpliceOp → ℕ → ℕ × SpliceOp
complete op result = (result, op)

instance abbrev pub operation : CompletionOp SpliceOp
operation = record {
  Output = ℕ;
  completion_token = λ op. op.completion_token;
  set_completion_token = λ op token. record op { completion_token = token };
  entry = build_completion_entry;
  built = λ op. op;
  complete = complete;
  token-set = λ op token. refl;
}

module _ {D : Type 0} ⦃poller : Poller D⦄ where
  -- `result` is what the system call `splice` gave, in which EAGAIN is `would_block`.
  unfoldable pub poll_poll : Result ℕ → D → SpliceOp → ℕ → Poll (Result ℕ) × D
  unfolding poll_result_or_wait
  poll_poll result d op waker = poll_result_or_wait result d op.fd_out.token waker true

module _ {S C R : Type 0} ⦃slab : Slab S HandleRegistration⦄ ⦃pool : Slab C Completion⦄
    ⦃sqes : Sqes R⦄ where
  unfoldable pub poll_completion :
      UringDriver S C R → SpliceOp → ℕ → Poll (Result ℕ) × SpliceOp × UringDriver S C R
  unfolding Op.poll_completion
  poll_completion d op waker = Op.poll_completion d op waker

  -- Nothing is left with the driver but an empty box.
  unfoldable pub drop : UringDriver S C R → SpliceOp → UringDriver S C R
  unfolding Op.drop
  drop d op = Op.drop d op.completion_token unit_box
