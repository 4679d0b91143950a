-- ===== src/Op/Recv.antt =====
-- `RecvOp` of vibeio/src/op/recv.rs, on Unix.
use vibeio.Prelude.{ℕ, ◌%◌, ◌^◌, refl, Bool, true, false, Option, none, Result, ok, err}
use vibeio.Slab.{Slab}
use vibeio.Join.{Poll, ready, pending}
use vibeio.Handle.{InnerRawHandle}
use vibeio.Uring.{HandleRegistration, Completion, UringDriver}
use vibeio.Uring.Ring.{Sqes, Opcode}
use vibeio.Op
use vibeio.Op.{CompletionOp, Poller, poll_result_or_wait}
use vibeio.Op.Buffer.{
  into_stable_box, IoBufMut, CompletionBuffer, as_ref, modify, into_inner, completion_buffer,
}

-- The source has the buffer in an `Option`, which is empty only where the operation is over.
pub record RecvOp (B : Type 0) : Type 0 where
  pub handle : InnerRawHandle
  pub buf : CompletionBuffer B
  pub peek : Bool
  pub completion_token : Option ℕ

module _ {B : Type 0} ⦃buffer : IoBufMut B⦄ where
  -- `stable` is `uses_completion` of the handle.
  unfoldable pub new : InnerRawHandle → B → Bool → RecvOp B
  unfolding completion_buffer
  new handle buf stable = record {
    handle = handle;
    buf = completion_buffer buf stable;
    peek = false;
    completion_token = none;
  }

  -- `stable` is `uses_completion` of the handle.
  unfoldable pub new_peek : InnerRawHandle → B → Bool → RecvOp B
  unfolding completion_buffer
  new_peek handle buf stable = record {
    handle = handle;
    buf = completion_buffer buf stable;
    peek = true;
    completion_token = none;
  }

  unfoldable pub take_bufs : RecvOp B → B
  unfolding into_inner
  take_bufs op = into_inner op.buf

  -- `none` in the place of an offset is one that is not set.
  unfoldable pub build_completion_entry : RecvOp B → Result Opcode
  unfolding as_ref
  build_completion_entry op =
      ok (Opcode.recv op.handle.handle (buffer.buf_capacity (as_ref op.buf) % 2 ^ 32) op.peek)

  unfoldable pub complete : RecvOp B → ℕ → ℕ × RecvOp B
  unfolding modify
  complete op result =
      (result, record op { buf = modify (λ buf. buffer.set_buf_init buf result) op.buf })

  instance abbrev pub operation : CompletionOp (RecvOp B)
  operation = record {
    Output = ℕ;
    completion_token = λ op. op.completion_token;
    set_completion_token = λ op token. record op { completion_token = token };
    entry = build_completion_entry;
    built = λ op. op;
    complete = complete;
    token-set = λ op token. refl;
  }

module _ {B D : Type 0} ⦃buffer : IoBufMut B⦄ ⦃poller : Poller D⦄ where
  unfoldable pub end_poll : RecvOp B → Poll (Result ℕ) × D → Poll (Result ℕ) × RecvOp B × D
  unfolding complete
  end_poll op (ready (ok n), d) = (ready (ok n), (complete op n).1, d)
  end_poll op (ready (err e), d) = (ready (err e), op, d)
  end_poll op (pending, d) = (pending, op, d)

  -- `result` is what the system call `recv` gave, in which EAGAIN is `would_block`.
  unfoldable pub poll_poll : Result ℕ → D → RecvOp B → ℕ → Poll (Result ℕ) × RecvOp B × D
  unfolding end_poll poll_result_or_wait
  poll_poll result d op waker =
      end_poll op (poll_result_or_wait result d op.handle.token waker false)

module _ {B S C R : Type 0} ⦃buffer : IoBufMut B⦄ ⦃slab : Slab S HandleRegistration⦄
    ⦃pool : Slab C Completion⦄ ⦃sqes : Sqes R⦄ where
  unfoldable pub poll_completion :
      UringDriver S C R → RecvOp B → ℕ → Poll (Result ℕ) × RecvOp B × UringDriver S C R
  unfolding Op.poll_completion
  poll_completion d op waker = Op.poll_completion d op waker

  -- `box` names the box that is made of the stable buffer, which stays with the driver.
  unfoldable pub drop : (CompletionBuffer B → ℕ) → UringDriver S C R → RecvOp B → UringDriver S C R
  unfolding Op.drop into_stable_box
  drop box d op = Op.drop d op.completion_token (box (into_stable_box op.buf))
