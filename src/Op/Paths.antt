-- ===== src/Op/Paths.antt =====
-- The two ways to run an operation, side by side.
use vibeio.Prelude.{
  ℕ, ◌-◌, ◌%◌, ◌^◌, ◌≤◌, ◌≡◌, ◌≢◌, refl, Option, none, some, Result, ok, err, os, invalid_input,
  would_block, arith, ltb, ◌==◌, if◌then◌else◌,
}
use vibeio.Slab.{Slab}
use vibeio.Join.{Poll, ready}
use vibeio.Uring.{HandleRegistration, Completion, UringDriver}
use vibeio.Uring.Ring.{Sqes, Opcode}
use vibeio.Uring.Queue.{get_completion_result}
use vibeio.Uring.Completions.{get-get_completion_result}
use vibeio.Op
use vibeio.Op.{Poller, finish, poll_in_flight, is_negative, os_error, poll_result_or_wait}
use vibeio.Op.Buffer.{IoBufMut, CompletionBuffer, as_ref, modify}
use vibeio.Op.Read
use vibeio.Op.Read.{ReadOp, operation}
use vibeio.Op.ReadAt
use vibeio.Op.ReadAt.{ReadAtOp}

abbrev eagain : ℕ
eagain = 2 ^ 32 - 11

-- What the system call gives where the kernel's answer is the i32: -1 and an errno, or a count.
pub syscall_result : ℕ → Result ℕ
syscall_result answer =
    if answer == eagain
    then err would_block
    else if is_negative answer
    then err (os_error answer)
    else ok answer

-- What the kernel's answer means.
abbrev pub answer_of : ℕ → Poll (Result ℕ)
answer_of answer =
    if ltb answer (2 ^ 31) then ready (ok answer) else ready (err (os (2 ^ 32 - answer)))

module _ {B : Type 0} ⦃buffer : IoBufMut B⦄ where
  -- What it makes of the buffer.
  abbrev pub filled : CompletionBuffer B → ℕ → CompletionBuffer B
  filled buf answer =
      if ltb answer (2 ^ 31) then modify (λ inner. buffer.set_buf_init inner answer) buf else buf

module _ {B D : Type 0} ⦃buffer : IoBufMut B⦄ ⦃poller : Poller D⦄ where
  polled_read :
      (op : ReadOp B) (d : D) (waker answer : ℕ)
      → answer ≢ 2 ^ 32 - 11
      → Read.poll_poll (syscall_result answer) d op waker
        ≡ (answer_of answer, record op { buf = filled op.buf answer }, d)
  unfolding syscall_result Read.poll_poll Read.end_poll Read.complete poll_result_or_wait
      is_negative os_error
  polled_read op d waker answer h = ground arith

module _ {B S C R : Type 0} ⦃buffer : IoBufMut B⦄ ⦃slab : Slab S HandleRegistration⦄
    ⦃pool : Slab C Completion⦄ ⦃sqes : Sqes R⦄ where
  completed_read :
      (op : ReadOp B) (ring : UringDriver S C R) (token waker answer : ℕ)
      → (get_completion_result ring.completions token).0 ≡ some answer
      → Read.poll_completion ring (record op { completion_token = some token }) waker ≡ (
        answer_of answer,
        record op { buf = filled op.buf answer; completion_token = none },
        record ring { completions = (get_completion_result ring.completions token).1 },
      )
  unfolding Read.poll_completion Op.poll_completion poll_in_flight finish Read.complete is_negative
      os_error
  completed_read op ring token waker answer p = ground (arith, p)

module _ {B S C R D : Type 0} ⦃buffer : IoBufMut B⦄ ⦃slab : Slab S HandleRegistration⦄
    ⦃pool : Slab C Completion⦄ ⦃sqes : Sqes R⦄ ⦃poller : Poller D⦄ where
  -- Where the kernel gives the same answer, an i32 that is not EAGAIN, a read that is polled and a
  -- read whose completion has come give the same result: the count where the answer is not negative,
  -- else the error with its errno. Both leave the same buffer, of which the count was set where the
  -- answer is not negative, and the one that is polled does not touch its driver. The other one no
  -- longer holds a token, and of the ring's slots only that of its token is freed.
  pub read_paths_agree :
      (op : ReadOp B) (d : D) (ring : UringDriver S C R) (token waker answer j : ℕ)
      (waiter : Option ℕ)
      → answer ≢ 2 ^ 32 - 11
      → pool.get ring.completions token
        ≡ some (record { waiter = waiter; completed = some answer; ignored_data = none })
      → let (result, op', ring') =
          Read.poll_completion ring (record op { completion_token = some token }) waker in
        (Read.poll_poll (syscall_result answer) d op waker
          ≡ (answer_of answer, record op { buf = filled op.buf answer }, d))
        × (result ≡ answer_of answer)
        × (op' ≡ record op { buf = filled op.buf answer; completion_token = none })
        × (pool.get ring'.completions j
            ≡ (if token == j then none else pool.get ring.completions j))
  read_paths_agree op d ring token waker answer j waiter h at =
      let (held, freed) = get-get_completion_result ring.completions token j _ answer at refl in
      rw (completed_read op ring token waker answer held)
        (polled_read op d waker answer h, refl, refl, freed)

module _ {B : Type 0} ⦃buffer : IoBufMut B⦄ where
  -- A read at an offset with a buffer of 2 ^ 32 bytes or more is refused before it is submitted; a
  -- read without an offset is submitted, for the remainder of its capacity by 2 ^ 32.
  pub long_buffers :
      (op : ReadOp B) (op' : ReadAtOp B)
      → 2 ^ 32 ≤ buffer.buf_capacity (as_ref op'.buf)
      → (ReadAt.build_completion_entry op' ≡ err invalid_input)
        × (Read.build_completion_entry op
            ≡ ok (Opcode.read op.handle.handle (buffer.buf_capacity (as_ref op.buf) % 2 ^ 32) none))
  unfolding ReadAt.build_completion_entry Read.build_completion_entry
  long_buffers op op' h = (ground arith, refl)
