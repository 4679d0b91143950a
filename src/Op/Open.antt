-- ===== src/Op/Open.antt =====
-- `OpenOp` of vibeio/src/op/open.rs.
use vibeio.Prelude.{ℕ, refl, Option, none, Result, ok, List}
use vibeio.Slab.{Slab}
use vibeio.Join.{Poll}
use vibeio.Uring.{HandleRegistration, Completion, UringDriver}
use vibeio.Uring.Ring.{Sqes, Opcode}
use vibeio.Op
use vibeio.Op.{unit_box, CompletionOp, Poller, poll_result_or_wait}

pub record OpenOp : Type 0 where
  pub path : List ℕ
  pub flags : ℕ
  pub mode : ℕ
  pub completion_token : Option ℕ

unfoldable pub new : List ℕ → ℕ → ℕ → OpenOp
new path flags mode = record { path = path; flags = flags; mode = mode; completion_token = none }

unfoldable pub build_completion_entry : OpenOp → Result Opcode
build_completion_entry op = ok (Opcode.open_at op.path op.flags op.mode)

unfoldable pub complete : OpenOp → ℕ → ℕ × OpenOp
complete op result = (result, op)

instance abbrev pub operation : CompletionOp OpenOp
operation = record {
  Output = ℕ;
  completion_token = λ op. op.completion_token;
  set_completion_token = λ op token. record op { completion_token = token };
  entry = build_completion_entry;
  built = λ op. op;
  complete = complete;
  token-set = λ op token. refl;
}

module _ {S C R : Type 0} ⦃slab : Slab S HandleRegistration⦄ ⦃pool : Slab C Completion⦄
    ⦃sqes : Sqes R⦄ where
  unfoldable pub poll_completion :
      UringDriver S C R → OpenOp → ℕ → Poll (Result ℕ) × OpenOp × UringDriver S C R
  unfolding Op.poll_completion
  poll_completion d op waker = Op.poll_completion d op waker

  -- Nothing is left with the driver but an empty box.
  unfoldable pub drop : UringDriver S C R → OpenOp → UringDriver S C R
  unfolding Op.drop
  drop d op = Op.drop d op.completion_token unit_box
