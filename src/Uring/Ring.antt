-- ===== src/Uring/Ring.antt =====
-- The crate io_uring, as the driver uses its submission queue. It is not part of the repository:
-- `Sqes` states what its documentation promises of the calls.
use vibeio.Prelude.{ℕ, ◌≡◌, Bool, true, false, Option, List, [], ◌∷◌, ◌++◌, Result}

-- What an operation asks of the kernel, after the names of `io_uring::opcode`. Of a buffer the length
-- is kept and not the address; a path is its bytes; `none` is an offset that is not set.
pub data Opcode : Type 0 where
  read : (fd len : ℕ) (offset : Option ℕ) → Opcode
  write : (fd len : ℕ) (offset : Option ℕ) → Opcode
  recv : (fd len : ℕ) (peek : Bool) → Opcode
  send : (fd len : ℕ) → Opcode
  fsync : (fd : ℕ) (data_only : Bool) → Opcode
  mkdir_at : (path : List ℕ) (mode : ℕ) → Opcode
  unlink_at : (path : List ℕ) (is_dir : Bool) → Opcode
  rename_at : (old_path new_path : List ℕ) → Opcode
  symlink_at : (old_path new_path : List ℕ) → Opcode
  link_at : (old_path new_path : List ℕ) → Opcode
  open_at : (path : List ℕ) (flags mode : ℕ) → Opcode
  accept : (fd : ℕ) (nonblock cloexec : Bool) → Opcode
  connect : (fd : ℕ) (address : ℕ) → Opcode
  splice : (fd_in fd_out len : ℕ) → Opcode

-- An entry, with the number that its completion will carry.
pub data Sqe : Type 0 where
  poll_add : (fd poll_mask user_data : ℕ) → Sqe
  read_eventfd : (user_data : ℕ) → Sqe
  operation : (opcode : Opcode) (user_data : ℕ) → Sqe

pub record Sqes (R : Type 0) : Type 0 where
  -- What stands in the queue and has not been given to the kernel.
  pub queued : R → List Sqe
  pub is_full : R → Bool
  pub submit : R → Result ℕ × R
  -- `push`, and whether it took the entry.
  pub push : R → Sqe → Bool × R
  pub push_taken :
      (r : R) (sqe : Sqe) → (push r sqe).0 ≡ true → queued (push r sqe).1 ≡ queued r ++ sqe ∷ []
  pub push_refused : (r : R) (sqe : Sqe) → (push r sqe).0 ≡ false → is_full r ≡ true
