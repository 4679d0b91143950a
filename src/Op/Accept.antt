-- ===== src/Op/Accept.antt =====
-- `AcceptOp` of vibeio/src/op/accept.rs and `AcceptUnixOp` of vibeio/src/op/accept_unix.rs, on Linux.
pub mod Descriptors
mod Tests
use vibeio.Prelude.{
  ℕ, Bool, true, false, Option, none, some, Result, ok, err, IoError, would_block, ◌≡◌, refl,
}
use vibeio.Join.{Poll, ready, pending}
use vibeio.Handle.{InnerRawHandle}
use vibeio.Address.{SocketAddr, Storage, sockaddr_storage_to_socketaddr}
use vibeio.Calls.{Calls}
use vibeio.Uring.Ring.{Sqes, Opcode}
use vibeio.Slab.{Slab}
use vibeio.Uring.{HandleRegistration, Completion, UringDriver}
use vibeio.Op
use vibeio.Op.{unit_box, CompletionOp}

pub record AcceptOp : Type 0 where
  pub handle : InnerRawHandle
  pub completion_token : Option ℕ

pub record AcceptUnixOp : Type 0 where
  pub handle : InnerRawHandle
  pub completion_token : Option ℕ

abbrev pub blocks : IoError → Bool
blocks would_block = true
blocks _ = false

unfoldable pub build_completion_entry : AcceptOp → Result Opcode
build_completion_entry op = ok (Opcode.accept op.handle.handle true true)

unfoldable pub build_completion_entry_unix : AcceptUnixOp → Result Opcode
build_completion_entry_unix op = ok (Opcode.accept op.handle.handle false false)

-- The part of `poll_completion` that the operations share. What follows it is `finish_accept` and
-- `finish_accept_unix`.
instance abbrev pub accept_operation : CompletionOp AcceptOp
accept_operation = record {
  Output = ℕ;
  completion_token = λ op. op.completion_token;
  set_completion_token = λ op token. record op { completion_token = token };
  entry = build_completion_entry;
  built = λ op. op;
  complete = λ op fd. (fd, op);
  token-set = λ op token. refl;
}

instance abbrev pub accept_unix_operation : CompletionOp AcceptUnixOp
accept_unix_operation = record {
  Output = ℕ;
  completion_token = λ op. op.completion_token;
  set_completion_token = λ op token. record op { completion_token = token };
  entry = build_completion_entry_unix;
  built = λ op. op;
  complete = λ op fd. (fd, op);
  token-set = λ op token. refl;
}

-- The address of the peer, on a machine that is little-endian or not.
abbrev with_address : Bool → ℕ → Storage → Result (ℕ × SocketAddr)
with_address little fd storage = elim (sockaddr_storage_to_socketaddr little storage) [
  | err e ↦ err e
  | ok address ↦ ok (fd, address)
]

module _ {D : Type 0} ⦃calls : Calls D⦄ where
  -- A call that failed: to wait for the listener, or the error.
  unfoldable pub wait_or_fail : {A : Type 0} → D → ℕ → ℕ → IoError → Poll (Result A) × D
  wait_or_fail d token waker e = elim (blocks e) [
    | false ↦ (ready (err e), d)
    | true ↦
        let submitted = calls.submit_poll d token waker false in
        elim submitted.0 [ err e' ↦ (ready (err e'), submitted.1) | ok _ ↦ (pending, submitted.1) ]
  ]

  unfoldable pub peer_of : Bool → D → ℕ → ℕ → ℕ → Poll (Result (ℕ × SocketAddr)) × D
  unfolding wait_or_fail
  peer_of little d token waker fd =
      let peer = calls.getpeername d fd in
      elim peer.0 [
        | err e ↦ wait_or_fail peer.1 token waker e
        | ok storage ↦ (ready (with_address little fd storage), peer.1)
      ]

  -- `AcceptOp::poll_poll`.
  unfoldable pub accept_poll : Bool → D → AcceptOp → ℕ → Poll (Result (ℕ × SocketAddr)) × D
  unfolding wait_or_fail peer_of
  accept_poll little d op waker =
      let accepted = calls.accept d op.handle.handle in
      elim accepted.0 [
        | err e ↦ wait_or_fail accepted.1 op.handle.token waker e
        | ok fd ↦ peer_of little accepted.1 op.handle.token waker fd
      ]

  -- `AcceptUnixOp::poll_poll`.
  unfoldable pub accept_unix_poll : D → AcceptUnixOp → ℕ → Poll (Result ℕ) × D
  unfolding wait_or_fail
  accept_unix_poll d op waker =
      let accepted = calls.accept d op.handle.handle in
      elim accepted.0 [
        | err e ↦ wait_or_fail accepted.1 op.handle.token waker e
        | ok fd ↦ (ready (ok fd), accepted.1)
      ]

  -- The end of `AcceptOp::poll_completion`, with the descriptor that has come.
  unfoldable pub finish_accept : Bool → D → ℕ → Result (ℕ × SocketAddr) × D
  finish_accept little d fd =
      let set = calls.set_cloexec d fd in
      elim set.0 [
        | err e ↦ (err e, set.1)
        | ok _ ↦
            let peer = calls.getpeername set.1 fd in
            elim peer.0 [
              | err e ↦ (err e, peer.1)
              | ok storage ↦ (with_address little fd storage, peer.1)
            ]
      ]

  -- The end of `AcceptUnixOp::poll_completion`.
  unfoldable pub finish_accept_unix : D → ℕ → Result ℕ × D
  finish_accept_unix d fd =
      let set = calls.set_cloexec d fd in
      elim set.0 [ err e ↦ (err e, set.1) | ok _ ↦ (ok fd, set.1) ]

module _ {S C R : Type 0} ⦃slab : Slab S HandleRegistration⦄ ⦃pool : Slab C Completion⦄
    ⦃sqes : Sqes R⦄ where
  -- Nothing is left with the driver but an empty box.
  unfoldable pub drop : UringDriver S C R → AcceptOp → UringDriver S C R
  unfolding Op.drop
  drop d op = Op.drop d op.completion_token unit_box

  -- Nothing is left with the driver but an empty box.
  unfoldable pub drop_unix : UringDriver S C R → AcceptUnixOp → UringDriver S C R
  unfolding Op.drop
  drop_unix d op = Op.drop d op.completion_token unit_box
