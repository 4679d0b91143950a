-- ===== src/Uring/Tests.antt =====
-- The driver over a ring of two entries.
use vibeio.Prelude.{
  ℕ, ◌≡◌, ◌≢◌, refl, true, false, Option, none, some, List, [], ◌∷◌, inl, inr, Result, ok, arith,
  ◌==◌, if◌then◌else◌,
}
use vibeio.Slab.{Slab}
use vibeio.Slab.Slots.{slots}
use vibeio.Uring.Ring.{Sqe, Opcode, operation}
use vibeio.Uring.Fifo.{fifo}
use vibeio.Uring.{
  PollRegistration, HandleRegistration, poll, Completion, UringDriver, encode_completion_key,
  encode_poll_key, decode_token, decode_key_kind, interrupt_key, timeout_key, poll_key_kind,
  completion_key_kind, arm_poll,
}
use vibeio.Uring.Keys.{decode-encode}
use vibeio.Uring.Calls.{submit_completion, submit_poll, retry, push_entry, push_poll_add}
use vibeio.Uring.Queue.{drain_cqe, drain_cq, get_completion_result, ignore_completion}
use vibeio.Uring.Completions.{
  completion_comes_back, ignored_completion_is_freed, ignored_after_completion_stays, IsWithout,
}
use vibeio.Uring.Polls.{submitted_poll_is_woken, read_event_wakes_writer, reads, writes}

decode-encode_run :
    (decode_token (encode_completion_key 5) ≡ 5)
    × (decode_key_kind (encode_completion_key 5) ≡ completion_key_kind)
    × (decode_token (encode_poll_key 5) ≡ 5)
    × (decode_key_kind (encode_poll_key 5) ≡ poll_key_kind)
    × (encode_completion_key 5 ≢ interrupt_key)
    × (encode_completion_key 5 ≢ timeout_key)
    × (encode_poll_key 5 ≢ interrupt_key)
    × (encode_poll_key 5 ≢ timeout_key)
decode-encode_run = decode-encode 5 (omega arith)

abbrev Handles : Type 0
Handles = List (Option HandleRegistration)

abbrev Pool : Type 0
Pool = List (Option Completion)

abbrev idle : PollRegistration
idle = record {
  fd = 5;
  poll_mask = 1;
  waiter_read = none;
  poll_read_armed = false;
  waiter_write = none;
  poll_write_armed = false;
}

-- A descriptor in the poll mode at token 0, and one operation in flight.
abbrev driver : UringDriver Handles Pool (List Sqe)
driver = record {
  registrations = some (poll idle) ∷ [];
  completions = some (record { waiter = some 4; completed = none; ignored_data = none }) ∷ [];
  ring = [];
  pending_submissions = false;
}

abbrev build : ℕ → Result Sqe
build key = ok (operation (Opcode.fsync 5 false) key)

submitted : (submit_completion driver build 9).0 ≡ retry 1
unfolding submit_completion push_entry
submitted = refl

completion_comes_back_example :
    let d : UringDriver Handles Pool (List Sqe) = (submit_completion driver build 9).1 in
    let after = drain_cqe d.registrations d.completions (encode_completion_key 1) 7 in
    (after.wakers ≡ 9 ∷ [])
    × ((get_completion_result after.completions 1).0 ≡ some 7)
    × (Slab.get slots (get_completion_result after.completions 1).1 0
        ≡ (if 1 == 0 then none else Slab.get slots driver.completions 0))
completion_comes_back_example = completion_comes_back driver build 9 1 7 0 submitted (omega arith)

abbrev in_flight : Completion
in_flight = record { waiter = some 4; completed = none; ignored_data = none }

ignored_completion_is_freed_run :
    let after =
      drain_cqe driver.registrations
        (ignore_completion driver.completions 0 8)
        (encode_completion_key 0)
        7 in
    Slab.get slots after.completions 0
    ≡ (if 0 == 0 then none else Slab.get slots driver.completions 0)
ignored_completion_is_freed_run =
    ignored_completion_is_freed driver.registrations driver.completions 0 7 8 in_flight 0
      (omega arith) refl

-- The poll of token 0 and the operation of token 2 complete later.
IsWithout-others : IsWithout 0 ((0, 1) ∷ (5, 1) ∷ [])
unfolding IsWithout decode_token decode_key_kind
IsWithout-others = (inr refl, (inl (λ p. omega arith), tt))

ignored_after_completion_stays_run :
    let completed = drain_cqe driver.registrations driver.completions (encode_completion_key 0) 7 in
    let ignored = ignore_completion completed.completions 0 8 in
    Slab.get slots (drain_cq completed.registrations ignored ((0, 1) ∷ (5, 1) ∷ [])).completions 0
    ≡ some (record { waiter = none; completed = some 7; ignored_data = some 8 })
ignored_after_completion_stays_run =
    ignored_after_completion_stays driver.registrations driver.completions 0 7 8 in_flight
      ((0, 1) ∷ (5, 1) ∷ []) (omega arith) refl refl IsWithout-others

first_submitted : (submit_poll driver 0 9 reads).0 ≡ ok tt
unfolding submit_poll push_poll_add push_entry arm_poll
first_submitted = refl

submitted_poll_is_woken_example :
    let d : UringDriver Handles Pool (List Sqe) = (submit_poll driver 0 9 reads).1 in
    let after = drain_cqe d.registrations d.completions (encode_poll_key 0) 1 in
    (after.wakers ≡ 9 ∷ [])
    × ((s : PollRegistration) × (Slab.get slots after.registrations 0 ≡ some (poll s))
        × (s.poll_read_armed ≡ false)
        × (s.poll_write_armed ≡ false))
submitted_poll_is_woken_example =
    submitted_poll_is_woken driver 0 9 1 reads idle (omega arith) refl refl first_submitted

abbrev with_reader : UringDriver Handles Pool (List Sqe)
with_reader = (submit_poll driver 0 9 reads).1

second_submitted : (submit_poll with_reader 0 6 writes).0 ≡ ok tt
unfolding submit_poll push_poll_add push_entry arm_poll
second_submitted = refl

read_event_wakes_writer_example :
    let d : UringDriver Handles Pool (List Sqe) = (submit_poll with_reader 0 6 writes).1 in
    let after = drain_cqe d.registrations d.completions (encode_poll_key 0) 1 in
    (after.wakers ≡ 6 ∷ [])
    × ((s : PollRegistration) × (Slab.get slots after.registrations 0 ≡ some (poll s))
        × (s.waiter_read ≡ some 9)
        × (s.poll_read_armed ≡ true))
    × (let d3 : UringDriver Handles Pool (List Sqe) = record d {
      registrations = after.registrations;
    } in
        (submit_poll d3 0 9 reads).1.ring ≡ d.ring)
read_event_wakes_writer_example =
    read_event_wakes_writer driver 0 9 6 1 idle (omega arith) refl first_submitted second_submitted
