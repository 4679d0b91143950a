-- ===== src/Calls.antt =====
-- The calls of the operating system that make and end descriptors, as the operations of vibeio/src/op
-- use them. They are not part of the repository: `Calls` states what their documentation promises.
pub mod Table
use vibeio.Prelude.{ℕ, ◌≡◌, Bool, true, false, ◌==◌, ◌||◌, if◌then◌else◌, Result, ok, err, IoError}
use vibeio.Address.{Storage}
use vibeio.Handle.{InnerRawHandle}

-- `waitpid` with WNOHANG: 0 is `running`.
pub data Waited : Type 0 where
  exited : (status : ℕ) → Waited
  running : Waited
  failed : IoError → Waited

-- `D` is the driver and the process's descriptors; `opened d fd` is whether the descriptor is open. An
-- error with the number of EAGAIN is `would_block`. `new_handle` and `drop_handle` make and drop an
-- `InnerRawHandle` in the poll mode, `submit_poll` is the driver's, for reading or for writing.
pub record Calls (D : Type 0) : Type 0 where
  pub opened : D → ℕ → Bool
  pub close : D → ℕ → D
  pub pidfd_open : D → ℕ → Result ℕ × D
  pub accept : D → ℕ → Result ℕ × D
  pub set_cloexec : D → ℕ → Result (Unit {0}) × D
  pub getpeername : D → ℕ → Result Storage × D
  pub read : D → ℕ → Result ℕ × D
  pub waitpid : D → ℕ → Waited × D
  pub new_handle : D → ℕ → Result InnerRawHandle × D
  pub drop_handle : D → InnerRawHandle → D
  pub submit_poll : D → ℕ → ℕ → Bool → Result (Unit {0}) × D
  pub opened-close :
      (d : D) (fd j : ℕ) → opened (close d fd) j ≡ (if fd == j then false else opened d j)
  pub pidfd_open_ok :
      (d : D) (pid fd j : ℕ)
      → (pidfd_open d pid).0 ≡ ok fd
      → (opened d fd ≡ false) × (opened (pidfd_open d pid).1 j ≡ (fd == j || opened d j))
  pub pidfd_open_err :
      (d : D) (pid j : ℕ) (e : IoError)
      → (pidfd_open d pid).0 ≡ err e
      → opened (pidfd_open d pid).1 j ≡ opened d j
  pub accept_ok :
      (d : D) (listener fd j : ℕ)
      → (accept d listener).0 ≡ ok fd
      → (opened d fd ≡ false) × (opened (accept d listener).1 j ≡ (fd == j || opened d j))
  pub accept_err :
      (d : D) (listener j : ℕ) (e : IoError)
      → (accept d listener).0 ≡ err e
      → opened (accept d listener).1 j ≡ opened d j
  pub opened-set_cloexec : (d : D) (fd j : ℕ) → opened (set_cloexec d fd).1 j ≡ opened d j
  pub opened-getpeername : (d : D) (fd j : ℕ) → opened (getpeername d fd).1 j ≡ opened d j
  pub opened-read : (d : D) (fd j : ℕ) → opened (read d fd).1 j ≡ opened d j
  pub opened-waitpid : (d : D) (pid j : ℕ) → opened (waitpid d pid).1 j ≡ opened d j
  pub opened-new_handle : (d : D) (fd j : ℕ) → opened (new_handle d fd).1 j ≡ opened d j
  pub opened-drop_handle :
      (d : D) (handle : InnerRawHandle) (j : ℕ) → opened (drop_handle d handle) j ≡ opened d j
  pub opened-submit_poll :
      (d : D) (token waker : ℕ) (writable : Bool) (j : ℕ)
      → opened (submit_poll d token waker writable).1 j ≡ opened d j
