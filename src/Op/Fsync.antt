-- ===== src/Op/Fsync.antt =====
-- `FsyncOp` of vibeio/src/op/fsync.rs.
use vibeio.Prelude.{ℕ, refl, Bool, Option, none, Result, ok}
use vibeio.Slab.{Slab}
use vibeio.Join.{Poll}
use vibeio.Handle.{InnerRawHandle}
use vibeio.Uring.{HandleRegistration, Completion, UringDriver}
use vibeio.Uring.Ring.{Sqes, Opcode}
use vibeio.Op
use vibeio.Op.{unit_box, CompletionOp, Poller, poll_result_or_wait}

pub record FsyncOp : Type 0 where
  pub handle : InnerRawHandle
  pub data_only : Bool
  pub completion_token : Option ℕ

unfoldable pub new : InnerRawHandle → Bool → FsyncOp
new handle data_only = record { handle = handle; data_only = data_only; completion_token = none }

unfoldable pub build_completion_entry : FsyncOp → Result Opcode
build_completion_entry op = ok (Opcode.fsync op.handle.handle op.data_only)

unfoldable pub complete : FsyncOp → ℕ → (Unit {0}) × FsyncOp
complete op result = (tt, op)

instance abbrev pub operation : CompletionOp FsyncOp
operation = record {
  Output = (Unit {0});
  completion_token = λ op. op.completion_token;
  set_completion_token = λ op token. record op { completion_token = token };
  entry = build_completion_entry;
  built = λ op. op;
  complete = complete;
  token-set = λ op token. refl;
}

module _ {S C R : Type 0} ⦃slab : Slab S HandleRegistration⦄ ⦃pool : Slab C Completion⦄
    ⦃sqes : Sqes R⦄ where
  unfoldable pub poll_completion :
      UringDriver S C R → FsyncOp → ℕ → Poll (Result (Unit {0})) × FsyncOp × UringDriver S C R
  unfolding Op.poll_completion
  poll_completion d op waker = Op.poll_completion d op waker

  -- Nothing is left with the driver but an empty box.
  unfoldable pub drop : UringDriver S C R → FsyncOp → UringDriver S C R
  unfolding Op.drop
  drop d op = Op.drop d op.completion_token unit_box
