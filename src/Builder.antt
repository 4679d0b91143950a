-- ===== src/Builder.antt =====
-- `RuntimeBuilder` and `DriverKind` of vibeio/src/builder.rs, the constructors of `AnyDriver` of
-- vibeio/src/driver/mod.rs, and the runtime of a thread of vibeio/src/executor.rs, on Linux. The
-- builder of the crate io_uring is a type `B`, and what the kernel says is the interface `Kernel`.
pub mod Choice
mod Tests
use vibeio.Prelude.{ℕ, Bool, true, false, Option, none, some, Result, ok, err, IoError}

pub record Kernel (B : Type 0) : Type 0 where
  -- `IoUring::builder()`, and the same with the flags of newer kernels.
  pub plain : B
  pub newer_flags : B
  -- What stops `UringDriver::new` and `MioDriver::new`.
  pub uring_error : ℕ → B → Option IoError
  pub mio_error : Option IoError

pub data AnyDriver (B : Type 0) : Type 0 where
  mock : AnyDriver B
  mio : AnyDriver B
  io_uring : (entries : ℕ) → B → AnyDriver B

pub data DriverKind (B : Type 0) : Type 0 where
  use_mio : DriverKind B
  use_mock : DriverKind B
  use_io_uring : DriverKind B
  io_uring_entries : (entries : ℕ) → DriverKind B
  io_uring_custom : B → DriverKind B
  io_uring_custom_entries : (entries : ℕ) → B → DriverKind B

-- A blocking pool is known by a number.
pub record RuntimeBuilder (B : Type 0) : Type 0 where
  pub driver_kind : Option (DriverKind B)
  pub timer : Bool
  pub fs_offload : Bool
  pub pool : Option ℕ
  pub batch : ℕ

pub record Settings (B : Type 0) : Type 0 where
  pub any_driver : AnyDriver B
  pub enable_timer : Bool
  pub blocking_pool : Option ℕ
  pub enable_fs_offload : Bool
  pub batch_size : ℕ

module _ {B : Type 0} where
  abbrev pub new : RuntimeBuilder B
  new = record { driver_kind = none; timer = false; fs_offload = false; pool = none; batch = 256 }

  abbrev pub with_driver : RuntimeBuilder B → DriverKind B → RuntimeBuilder B
  with_driver b kind = record b { driver_kind = some kind }

  abbrev pub with_batch_size : RuntimeBuilder B → ℕ → RuntimeBuilder B
  with_batch_size b size = record b { batch = size }

module _ {B : Type 0} ⦃kernel : Kernel B⦄ where
  unfoldable pub new_mio : Result (AnyDriver B)
  new_mio = elim kernel.mio_error [ none ↦ ok mio | some e ↦ err e ]

  unfoldable pub new_uring_custom_with_entries : ℕ → B → Result (AnyDriver B)
  new_uring_custom_with_entries entries builder = elim (kernel.uring_error entries builder) [
    | none ↦ ok (io_uring entries builder)
    | some e ↦ err e
  ]

  unfoldable pub new_uring_custom : B → Result (AnyDriver B)
  unfolding new_uring_custom_with_entries
  new_uring_custom builder = new_uring_custom_with_entries 4096 builder

  unfoldable pub new_uring_with_entries : ℕ → Result (AnyDriver B)
  unfolding new_uring_custom_with_entries
  new_uring_with_entries entries = elim (new_uring_custom_with_entries entries kernel.newer_flags) [
    | ok driver ↦ ok driver
    | err _ ↦ new_uring_custom_with_entries entries kernel.plain
  ]

  unfoldable pub new_uring : Result (AnyDriver B)
  unfolding new_uring_with_entries
  new_uring = new_uring_with_entries 4096

  unfoldable pub new_best : Result (AnyDriver B)
  unfolding new_uring new_mio
  new_best = elim new_uring [ ok driver ↦ ok driver | err _ ↦ new_mio ]

  unfoldable pub into_driver : DriverKind B → Result (AnyDriver B)
  unfolding new_mio new_uring new_uring_custom
  into_driver use_mio = new_mio
  into_driver use_mock = ok mock
  into_driver use_io_uring = new_uring
  into_driver (io_uring_custom builder) = new_uring_custom builder
  into_driver (io_uring_entries entries) = new_uring_with_entries entries
  into_driver (io_uring_custom_entries entries builder) =
      new_uring_custom_with_entries entries builder

  -- The builder that `uring` hands to its closure.
  abbrev pub custom_builder : Option (DriverKind B) → B
  custom_builder none = kernel.plain
  custom_builder (some use_mio) = kernel.plain
  custom_builder (some use_mock) = kernel.plain
  custom_builder (some use_io_uring) = kernel.plain
  custom_builder (some (io_uring_entries _)) = kernel.plain
  custom_builder (some (io_uring_custom builder)) = builder
  custom_builder (some (io_uring_custom_entries _ _)) = kernel.plain

  unfoldable pub uring : RuntimeBuilder B → (B → B) → RuntimeBuilder B
  uring b f = record b { driver_kind = some (io_uring_custom (f (custom_builder b.driver_kind))) }

  unfoldable pub chosen : Option (DriverKind B) → Result (AnyDriver B)
  unfolding into_driver new_best
  chosen none = new_best
  chosen (some kind) = into_driver kind

  unfoldable pub build : RuntimeBuilder B → Result (Settings B)
  unfolding chosen
  build b = elim (chosen b.driver_kind) [
    | err e ↦ err e
    | ok driver ↦ ok (record {
      any_driver = driver;
      enable_timer = b.timer;
      blocking_pool = b.pool;
      enable_fs_offload = b.fs_offload;
      batch_size = b.batch;
    })
  ]

-- `CURRENT_RUNTIME` of a thread, with a runtime `R` in it or none.
module _ {R : Type 0} where
  -- `CurrentRuntimeGuard::enter`, and nothing where it panics.
  unfoldable pub enter : Option R → R → Option (Option R)
  enter none runtime = some (some runtime)
  enter (some _) runtime = none

  -- The guard's `drop`.
  unfoldable pub leave : Option R → Option R
  leave current = none

  -- `block_on` around its loop, which is a function of the runtime: the output, and the thread's
  -- runtime afterwards.
  unfoldable pub block_on : {A : Type 0} → Option R → R → (R → A) → Option (A × Option R)
  unfolding enter leave
  block_on current runtime loop = elim (enter current runtime) [
    | none ↦ none
    | some entered ↦ some (loop runtime, leave entered)
  ]
