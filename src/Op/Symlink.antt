-- ===== src/Op/Symlink.antt =====
-- `SymlinkOp` of vibeio/src/op/symlink.rs.
use vibeio.Prelude.{ℕ, refl, Option, none, Result, ok, List}
use vibeio.Slab.{Slab}
use vibeio.Join.{Poll}
use vibeio.Uring.{HandleRegistration, Completion, UringDriver}
use vibeio.Uring.Ring.{Sqes, Opcode}
use vibeio.Op
use vibeio.Op.{unit_box, CompletionOp, Poller, poll_result_or_wait}

pub record SymlinkOp : Type 0 where
  pub old_path : List ℕ
  pub new_path : List ℕ
  pub completion_token : Option ℕ

unfoldable pub new : List ℕ → List ℕ → SymlinkOp
new old_path new_path = record { old_path = old_path; new_path = new_path; completion_token = none }

unfoldable pub build_completion_entry : SymlinkOp → Result Opcode
build_completion_entry op = ok (Opcode.symlink_at op.old_path op.new_path)

unfoldable pub complete : SymlinkOp → ℕ → (Unit {0}) × SymlinkOp
complete op result = (tt, op)

instance abbrev pub operation : CompletionOp SymlinkOp
operation = record {
  Output = (Unit {0});
  completion_token = λ op. op.completion_token;
  set_completion_token = λ op token. record op { completion_token = token };
  entry = build_completion_entry;
  built = λ op. op;
  complete = complete;
  token-set = λ op token. refl;
}

module _ {S C R : Type 0} ⦃slab : Slab S HandleRegistration⦄ ⦃pool : Slab C Completion⦄
    ⦃sqes : Sqes R⦄ where
  unfoldable pub poll_completion :
      UringDriver S C R → SymlinkOp → ℕ → Poll (Result (Unit {0})) × SymlinkOp × UringDriver S C R
  unfolding Op.poll_completion
  poll_completion d op waker = Op.poll_completion d op waker

  -- Nothing is left with the driver but an empty box.
  unfoldable pub drop : UringDriver S C R → SymlinkOp → UringDriver S C R
  unfolding Op.drop
  drop d op = Op.drop d op.completion_token unit_box
