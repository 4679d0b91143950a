-- ===== src/Uring.antt =====
-- `UringDriver` of vibeio/src/driver/uring.rs: the slabs of registrations and of completions, the
-- keys that stand in the ring, and what is done with the entries of the completion queue. The crate
-- io_uring is the interface `Ring`; an i32 is its 32 bits.
pub mod Ring
pub mod Calls
pub mod Queue
pub mod Keys
pub mod Completions
pub mod Polls
pub mod Fifo
mod Tests
use vibeio.Prelude.{
  ℕ, ◌+◌, ◌-◌, ◌*◌, ◌/◌, ◌%◌, ◌^◌, Bool, true, false, Option, none, some, List, [], ◌∷◌, ◌++◌, ◌&&◌,
  ◌||◌, not, Result, ok, err, IoError, not_found, unsupported, other, os, ◌==◌, if◌then◌else◌,
}
use vibeio.Slab.{Slab}
use vibeio.Uring.Ring.{Sqes, Sqe, poll_add, read_eventfd, operation}

pub record Interest : Type 0 where
  pub readable : Bool
  pub writable : Bool

pub data RegistrationMode : Type 0 where
  by_poll : RegistrationMode
  by_completion : RegistrationMode

pub record PollRegistration : Type 0 where
  pub fd : ℕ
  pub poll_mask : ℕ
  pub waiter_read : Option ℕ
  pub poll_read_armed : Bool
  pub waiter_write : Option ℕ
  pub poll_write_armed : Bool

pub data HandleRegistration : Type 0 where
  completion : HandleRegistration
  poll : PollRegistration → HandleRegistration

-- `ignored_data` is the box that an ignored operation leaves with the driver, known by a number.
pub record Completion : Type 0 where
  pub waiter : Option ℕ
  pub completed : Option ℕ
  pub ignored_data : Option ℕ

pub record UringDriver (S C R : Type 0) : Type 0 where
  pub registrations : S
  pub completions : C
  pub ring : R
  pub pending_submissions : Bool

-- The two keys that belong to no token.
abbrev pub interrupt_key : ℕ
interrupt_key = 2 ^ 64 - 1

abbrev pub timeout_key : ℕ
timeout_key = 2 ^ 64 - 2

abbrev pub poll_key_kind : ℕ
poll_key_kind = 0

abbrev pub completion_key_kind : ℕ
completion_key_kind = 1

-- A shift by one bit to the left, with the lowest bit set to the kind.
pub encode_completion_key : ℕ → ℕ
encode_completion_key token = token * 2 % 2 ^ 64 + completion_key_kind

pub encode_poll_key : ℕ → ℕ
encode_poll_key token = token * 2 % 2 ^ 64 + poll_key_kind

unfoldable pub decode_token : ℕ → ℕ
decode_token key = key / 2

unfoldable pub decode_key_kind : ℕ → ℕ
decode_key_kind key = key % 2

-- POLLIN is 1 and POLLOUT is 4.
abbrev pub interest_to_poll_mask : Interest → ℕ
interest_to_poll_mask interest =
    (if interest.readable then 1 else 0) + (if interest.writable then 4 else 0)

abbrev pub has_pollin : ℕ → Bool
has_pollin mask = mask % 2 == 1

abbrev pub has_pollout : ℕ → Bool
has_pollout mask = mask / 4 % 2 == 1

-- EBUSY and ETIME are no errors.
pub submitter_call_result : Result ℕ → Result (Unit {0})
submitter_call_result (ok n) = ok tt
submitter_call_result (err (os code)) = if code == 16 || code == 62 then ok tt else err (os code)
submitter_call_result (err not_found) = err not_found
submitter_call_result (err IoError.not_connected) = err IoError.not_connected
submitter_call_result (err unsupported) = err unsupported
submitter_call_result (err IoError.write_zero) = err IoError.write_zero
submitter_call_result (err IoError.interrupted) = err IoError.interrupted
submitter_call_result (err IoError.would_block) = err IoError.would_block
submitter_call_result (err IoError.invalid_input) = err IoError.invalid_input
submitter_call_result (err IoError.invalid_data) = err IoError.invalid_data
submitter_call_result (err IoError.unexpected_eof) = err IoError.unexpected_eof
submitter_call_result (err other) = err other

-- What a completed poll does to its registration: the waker that is taken out to be woken, and the
-- registration.
unfoldable pub take_poll : PollRegistration → Option ℕ × PollRegistration
take_poll r =
    if has_pollout r.poll_mask
    then (
      r.waiter_write,
      record r {
        poll_write_armed = false;
        waiter_write = none;
        poll_read_armed = if has_pollin r.poll_mask then false else r.poll_read_armed;
        waiter_read = if has_pollin r.poll_mask then none else r.waiter_read;
      },
    )
    else (r.waiter_read, record r { poll_read_armed = false; waiter_read = none })

abbrev pub take_poll_at : HandleRegistration → HandleRegistration
take_poll_at completion = completion
take_poll_at (poll r) = poll (take_poll r).1

-- A waker that would wake the same task is kept.
pub update_waiter : Option ℕ → ℕ → Option ℕ
update_waiter none waker = some waker
update_waiter (some waiter) waker = if waiter == waker then some waiter else some waker

-- `submit_poll` puts the waker and the mask in, and arms the direction.
unfoldable pub arm_poll : Interest → ℕ → PollRegistration → PollRegistration
unfolding update_waiter
arm_poll interest waker r =
    if interest.writable
    then record r {
      waiter_write = update_waiter r.waiter_write waker;
      poll_mask = interest_to_poll_mask interest;
      poll_write_armed = true;
    }
    else record r {
      waiter_read = update_waiter r.waiter_read waker;
      poll_mask = interest_to_poll_mask interest;
      poll_read_armed = true;
    }

-- Whether a poll of the direction is in the ring already.
abbrev pub is_armed : Interest → PollRegistration → Bool
is_armed interest r = if interest.writable then r.poll_write_armed else r.poll_read_armed

-- What a refused submission of a poll undoes.
pub disarm_poll : PollRegistration → PollRegistration
disarm_poll r = record r {
  poll_write_armed = if has_pollout r.poll_mask then false else r.poll_write_armed;
  waiter_write = if has_pollout r.poll_mask then none else r.waiter_write;
  poll_read_armed = if has_pollin r.poll_mask then false else r.poll_read_armed;
  waiter_read = if has_pollin r.poll_mask then none else r.waiter_read;
}

abbrev pub map_poll :
    (PollRegistration → PollRegistration) → HandleRegistration → HandleRegistration
map_poll f completion = completion
map_poll f (poll r) = poll (f r)
