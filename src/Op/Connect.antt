-- ===== src/Op/Connect.antt =====
-- `ConnectOp` of vibeio/src/op/connect.rs, on Unix. The socket calls of the operating system are the
-- interface `Sockets`.
pub mod Once
mod Tests
use vibeio.Prelude.{
  ℕ, suc, ◌≡◌, refl, Bool, true, false, Option, none, some, Result, ok, err, IoError, would_block,
  not_connected, os, ◌==◌, ◌||◌, if◌then◌else◌,
}
use vibeio.Join.{Poll, ready, pending}
use vibeio.Handle.{InnerRawHandle}
use vibeio.Uring.Ring.{Sqes, Opcode}
use vibeio.Slab.{Slab}
use vibeio.Uring.{HandleRegistration, Completion, UringDriver}
use vibeio.Op
use vibeio.Op.{unit_box, CompletionOp}

-- connect(2), SO_ERROR by getsockopt(2), getpeername(2), and the driver's `submit_poll` for writing. An
-- error with the number of EAGAIN is `would_block`, and with that of ENOTCONN `not_connected`.
-- `connects` is how often connect(2) has been called.
pub record Sockets (D : Type 0) : Type 0 where
  pub connects : D → ℕ
  pub connect : D → ℕ → ℕ → Result (Unit {0}) × D
  pub so_error : D → ℕ → Result ℕ × D
  pub getpeername : D → ℕ → Result (Unit {0}) × D
  pub submit_poll : D → ℕ → ℕ → Result (Unit {0}) × D
  pub connects-connect :
      (d : D) (fd address : ℕ) → connects (connect d fd address).1 ≡ suc (connects d)
  pub connects-so_error : (d : D) (fd : ℕ) → connects (so_error d fd).1 ≡ connects d
  pub connects-getpeername : (d : D) (fd : ℕ) → connects (getpeername d fd).1 ≡ connects d
  pub connects-submit_poll :
      (d : D) (token waker : ℕ) → connects (submit_poll d token waker).1 ≡ connects d

-- An address is known by a number.
pub record ConnectOp : Type 0 where
  pub handle : InnerRawHandle
  pub addr : ℕ
  pub completion_token : Option ℕ
  pub poll_connect_started : Bool

unfoldable pub new : InnerRawHandle → ℕ → ConnectOp
new handle addr = record {
  handle = handle;
  addr = addr;
  completion_token = none;
  poll_connect_started = false;
}

-- EINPROGRESS, EALREADY and EWOULDBLOCK.
abbrev pub in_progress : IoError → Bool
in_progress would_block = true
in_progress (os n) = (n == 115) || (n == 114)
in_progress _ = false

abbrev pub no_peer_yet : IoError → Bool
no_peer_yet not_connected = true
no_peer_yet e = in_progress e

abbrev pub blocks : IoError → Bool
blocks would_block = true
blocks _ = false

unfoldable pub build_completion_entry : ConnectOp → Result Opcode
build_completion_entry op = ok (Opcode.connect op.handle.handle op.addr)

instance abbrev pub operation : CompletionOp ConnectOp
operation = record {
  Output = Unit {0};
  completion_token = λ op. op.completion_token;
  set_completion_token = λ op token. record op { completion_token = token };
  entry = build_completion_entry;
  built = λ op. op;
  complete = λ op result. (tt, op);
  token-set = λ op token. refl;
}

module _ {D : Type 0} ⦃sockets : Sockets D⦄ where
  unfoldable pub start_nonblocking_connect : D → ℕ → ℕ → Result (Unit {0}) × D
  start_nonblocking_connect d fd addr =
      let connected = sockets.connect d fd addr in
      elim connected.0 [
        | ok _ ↦ (ok tt, connected.1)
        | err e ↦ if in_progress e then (ok tt, connected.1) else (err e, connected.1)
      ]

  -- Waiting until the socket can be written to, or the error.
  unfoldable pub wait_or_fail :
      D → InnerRawHandle → ℕ → Bool → IoError → Poll (Result (Unit {0})) × D
  wait_or_fail d handle waker waits e =
      let submitted = sockets.submit_poll d handle.token waker in
      if waits
      then elim submitted.0 [
        | err e' ↦ (ready (err e'), submitted.1)
        | ok _ ↦ (pending, submitted.1)
      ]
      else (ready (err e), d)

  unfoldable pub check_peer : D → InnerRawHandle → ℕ → Poll (Result (Unit {0})) × D
  unfolding wait_or_fail
  check_peer d handle waker =
      let peer = sockets.getpeername d handle.handle in
      elim peer.0 [
        | ok _ ↦ (ready (ok tt), peer.1)
        | err e ↦ wait_or_fail peer.1 handle waker (no_peer_yet e) e
      ]

  -- The part of `poll_poll` after the connection has been started.
  unfoldable pub check_socket : D → InnerRawHandle → ℕ → Poll (Result (Unit {0})) × D
  unfolding wait_or_fail check_peer
  check_socket d handle waker =
      let got = sockets.so_error d handle.handle in
      elim got.0 [
        | err e ↦ wait_or_fail got.1 handle waker (blocks e) e
        | ok n ↦
            if n == 0
            then check_peer got.1 handle waker
            else wait_or_fail got.1 handle waker (((n == 115) || (n == 114)) || (n == 11)) (os n)
      ]

  unfoldable pub poll_poll : D → ConnectOp → ℕ → Poll (Result (Unit {0})) × ConnectOp × D
  unfolding start_nonblocking_connect check_socket
  poll_poll d op waker =
      let begun = start_nonblocking_connect d op.handle.handle op.addr in
      if op.poll_connect_started
      then (let checked = check_socket d op.handle waker in (checked.0, op, checked.1))
      else elim begun.0 [
        | err e ↦ (ready (err e), op, begun.1)
        | ok _ ↦
            let checked = check_socket begun.1 op.handle waker in
            (checked.0, record op { poll_connect_started = true }, checked.1)
      ]

module _ {S C R : Type 0} ⦃slab : Slab S HandleRegistration⦄ ⦃pool : Slab C Completion⦄
    ⦃sqes : Sqes R⦄ where
  -- Nothing is left with the driver but an empty box.
  unfoldable pub drop : UringDriver S C R → ConnectOp → UringDriver S C R
  unfolding Op.drop
  drop d op = Op.drop d op.completion_token unit_box
