-- ===== src/Op/Unlink.antt =====
-- `UnlinkOp` of vibeio/src/op/unlink.rs.
use vibeio.Prelude.{ℕ, refl, Bool, Option, none, Result, ok, List}
use vibeio.Slab.{Slab}
use vibeio.Join.{Poll}
use vibeio.Uring.{HandleRegistration, Completion, UringDriver}
use vibeio.Uring.Ring.{Sqes, Opcode}
use vibeio.Op
use vibeio.Op.{unit_box, CompletionOp, Poller, poll_result_or_wait}

pub record UnlinkOp : Type 0 where
  pub path : List ℕ
  pub is_dir : Bool
  pub completion_token : Option ℕ

unfoldable pub new : List ℕ → Bool → UnlinkOp
new path is_dir = record { path = path; is_dir = is_dir; completion_token = none }

unfoldable pub build_completion_entry : UnlinkOp → Result Opcode
build_completion_entry op = ok (Opcode.unlink_at op.path op.is_dir)

unfoldable pub complete : UnlinkOp → ℕ → (Unit {0}) × UnlinkOp
complete op result = (tt, op)

instance abbrev pub operation : CompletionOp UnlinkOp
operation = record {
  Output = (Unit {0});
  completion_token = λ op. op.completion_token;
  set_completion_token = λ op token. record op { completion_token = token };
  entry = build_completion_entry;
  built = λ op. op;
  complete = complete;
  token-set = λ op token. refl;
}

module _ {S C R : Type 0} ⦃slab : Slab S HandleRegistration⦄ ⦃pool : Slab C Completion⦄
    ⦃sqes : Sqes R⦄ where
  unfoldable pub poll_completion :
      UringDriver S C R → UnlinkOp → ℕ → Poll (Result (Unit {0})) × UnlinkOp × UringDriver S C R
  unfolding Op.poll_completion
  poll_completion d op waker = Op.poll_completion d op waker

  -- Nothing is left with the driver but an empty box.
  unfoldable pub drop : UringDriver S C R → UnlinkOp → UringDriver S C R
  unfolding Op.drop
  drop d op = Op.drop d op.completion_token unit_box
