-- ===== src/Op/Write.antt =====
-- `WriteOp` of vibeio/src/op/write.rs, on Unix.
use vibeio.Prelude.{ℕ, ◌%◌, ◌^◌, refl, Bool, true, Option, none, Result, ok}
use vibeio.Slab.{Slab}
use vibeio.Join.{Poll}
use vibeio.Handle.{InnerRawHandle}
use vibeio.Uring.{HandleRegistration, Completion, UringDriver}
use vibeio.Uring.Ring.{Sqes, Opcode}
use vibeio.Op
use vibeio.Op.{CompletionOp, Poller, poll_result_or_wait}
use vibeio.Op.Buffer.{
  into_stable_box, IoBufMut, CompletionBuffer, as_ref, into_inner, completion_buffer,
}

-- The source has the buffer in an `Option`, which is empty only where the operation is over.
pub record WriteOp (B : Type 0) : Type 0 where
  pub handle : InnerRawHandle
  pub buf : CompletionBuffer B
  pub completion_token : Option ℕ

module _ {B : Type 0} ⦃buffer : IoBufMut B⦄ where
  -- `stable` is `uses_completion` of the handle.
  unfoldable pub new : InnerRawHandle → B → Bool → WriteOp B
  unfolding completion_buffer
  new handle buf stable = record {
    handle = handle;
    buf = completion_buffer buf stable;
    completion_token = none;
  }

  unfoldable pub take_bufs : WriteOp B → B
  unfolding into_inner
  take_bufs op = into_inner op.buf

  -- `none` in the place of an offset is one that is not set.
  unfoldable pub build_completion_entry : WriteOp B → Result Opcode
  unfolding as_ref
  build_completion_entry op =
      ok (Opcode.write op.handle.handle (buffer.buf_len (as_ref op.buf) % 2 ^ 32) none)

  unfoldable pub complete : WriteOp B → ℕ → ℕ × WriteOp B
  complete op result = (result, op)

  instance abbrev pub operation : CompletionOp (WriteOp B)
  operation = record {
    Output = ℕ;
    completion_token = λ op. op.completion_token;
    set_completion_token = λ op token. record op { completion_token = token };
    entry = build_completion_entry;
    built = λ op. op;
    complete = complete;
    token-set = λ op token. refl;
  }

module _ {B D : Type 0} ⦃buffer : IoBufMut B⦄ ⦃poller : Poller D⦄ where
  -- `result` is what the system call `write` gave, in which EAGAIN is `would_block`.
  unfoldable pub poll_poll : Result ℕ → D → WriteOp B → ℕ → Poll (Result ℕ) × WriteOp B × D
  unfolding poll_result_or_wait
  poll_poll result d op waker =
      let (answer, d') = poll_result_or_wait result d op.handle.token waker true in (answer, op, d')

module _ {B S C R : Type 0} ⦃buffer : IoBufMut B⦄ ⦃slab : Slab S HandleRegistration⦄
    ⦃pool : Slab C Completion⦄ ⦃sqes : Sqes R⦄ where
  unfoldable pub poll_completion :
      UringDriver S C R → WriteOp B → ℕ → Poll (Result ℕ) × WriteOp B × UringDriver S C R
  unfolding Op.poll_completion
  poll_completion d op waker = Op.poll_completion d op waker

  -- `box` names the box that is made of the stable buffer, which stays with the driver.
  unfoldable pub drop : (CompletionBuffer B → ℕ) → UringDriver S C R → WriteOp B → UringDriver S C R
  unfolding Op.drop into_stable_box
  drop box d op = Op.drop d op.completion_token (box (into_stable_box op.buf))
