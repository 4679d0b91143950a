-- ===== src/Handle.antt =====
-- `InnerRawHandle` of vibeio/src/fd_inner.rs. The driver is the interface `Driver` of the calls that a
-- handle makes of `AnyDriver`; Handle/Poll fills it with the mio driver.
pub mod OverMio
mod Tests
use vibeio.Prelude.{
  ℕ, Bool, true, false, not, Option, none, some, Result, ok, err, IoError, not_connected, ◌&&◌,
  if◌then◌else◌,
}

pub data RegistrationMode : Type 0 where
  poll : RegistrationMode
  completion : RegistrationMode

abbrev pub is_completion : RegistrationMode → Bool
is_completion poll = false
is_completion completion = true

abbrev pub same_mode : RegistrationMode → RegistrationMode → Bool
same_mode poll poll = true
same_mode completion completion = true
same_mode poll completion = false
same_mode completion poll = false

-- The calls of a driver `D`; the arguments are the descriptor or the token, the interest and the mode.
pub record Driver (D : Type 0) : Type 0 where
  pub supports_completion : D → Bool
  pub register_handle_with_mode : D → ℕ → ℕ → RegistrationMode → Result ℕ × D
  pub deregister_handle : D → ℕ → Result (Unit {0}) × D

pub record InnerRawHandle : Type 0 where
  pub handle : ℕ
  pub token : ℕ
  pub interest : ℕ
  pub mode : RegistrationMode

module _ {D : Type 0} ⦃driver : Driver D⦄ where
  -- The mode that a driver without completions falls back to.
  pub effective_mode : D → RegistrationMode → RegistrationMode
  effective_mode d mode =
      if is_completion mode && not (driver.supports_completion d) then poll else mode

  -- `Drop` of a handle.
  pub drop : D → InnerRawHandle → D
  drop d inner = (driver.deregister_handle d inner.token).1

  -- Where registration fails, `?` leaves the function and drops `inner`, whose token is still 0.
  pub new_with_driver_and_mode : D → ℕ → ℕ → RegistrationMode → Result InnerRawHandle × D
  unfolding effective_mode drop
  new_with_driver_and_mode d fd interest requested =
      let mode = effective_mode d requested in
      let inner : InnerRawHandle = record {
        handle = fd;
        token = 0;
        interest = interest;
        mode = mode;
      } in
      let (result, d') = driver.register_handle_with_mode d fd interest mode in
      elim result [
        | ok token ↦ (ok (record inner { token = token }), d')
        | err e ↦ (err e, drop d' inner)
      ]

  -- `None` is a thread outside a runtime.
  pub new_with_mode : Option D → ℕ → ℕ → RegistrationMode → Result InnerRawHandle × Option D
  unfolding new_with_driver_and_mode
  new_with_mode none fd interest mode = (err not_connected, none)
  new_with_mode (some d) fd interest mode =
      let (result, d') = new_with_driver_and_mode d fd interest mode in (result, some d')

  abbrev pub default_mode : Option D → RegistrationMode
  default_mode none = poll
  default_mode (some d) = if driver.supports_completion d then completion else poll

  pub new : Option D → ℕ → ℕ → Result InnerRawHandle × Option D
  unfolding new_with_mode
  new d fd interest = new_with_mode d fd interest (default_mode d)

  pub uses_completion : D → InnerRawHandle → Bool
  uses_completion d inner = driver.supports_completion d && is_completion inner.mode

  -- The answer, the handle and the driver.
  pub rebind_mode : D → InnerRawHandle → RegistrationMode → Result (Unit {0}) × InnerRawHandle × D
  unfolding effective_mode
  rebind_mode d inner requested =
      let mode = effective_mode d requested in
      if same_mode inner.mode mode
      then (ok tt, inner, d)
      else (let (result, d') = driver.deregister_handle d inner.token in
          elim result [
            | err e ↦ (err e, inner, d')
            | ok _ ↦
                let (result', d'') =
                  driver.register_handle_with_mode d' inner.handle inner.interest mode in
                elim result' [
                  | err e ↦ (err e, inner, d'')
                  | ok token ↦ (ok tt, record inner { token = token; mode = mode }, d'')
                ]
          ])

  -- An operation of the kind `Op` gives the answers of its two polls.
  module _ {A : Type 0} (poll_completion poll_poll : D → A × D) where
    pub poll_op : D → InnerRawHandle → A × D
    unfolding uses_completion
    poll_op d inner = if uses_completion d inner then poll_completion d else poll_poll d
