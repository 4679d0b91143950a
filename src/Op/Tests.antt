-- ===== src/Op/Tests.antt =====
-- A read of four bytes at most, over the ring of two entries and over a table of sources.
use vibeio.Prelude.{
  ℕ, ◌%◌, ◌^◌, ◌≡◌, ◌+◌, refl, true, false, Option, none, some, List, [], ◌∷◌, inl, inr, ok, err,
  would_block, invalid_input, arith, has, ◌==◌, if◌then◌else◌,
}
use vibeio.Slab.Slots.{slots}
use vibeio.Join.{ready, pending}
use vibeio.Handle
use vibeio.Handle.{InnerRawHandle}
use vibeio.Uring.{
  HandleRegistration, Completion, UringDriver, encode_completion_key, decode_token, decode_key_kind,
}
use vibeio.Uring.Ring.{Sqe, Opcode}
use vibeio.Uring.Fifo.{fifo}
use vibeio.Uring.Calls.{submit_completion, push_entry, retry, submit_err}
use vibeio.Uring.Queue.{drain_cqe, drain_cq}
use vibeio.Uring.Completions.{IsWithout}
use vibeio.Driver.Table.{Table, tables}
use vibeio.Driver.Mio.{polled}
use vibeio.Driver.History.{start, next, registers, Reach-IsSynced}
use vibeio.Driver.{Registration, MioDriver, register_handle, submit_poll, wait_timeout, new}
use vibeio.Op.{poll_completion, poll_result_or_wait, wait_for, as_entry, finish}
use vibeio.Op.Buffer.{VecBuf, vec_buf, CompletionBuffer, inline, boxed, into_inner, as_ref}
use vibeio.Op.Read
use vibeio.Op.Read.{ReadOp, operation}
use vibeio.Op.ReadAt
use vibeio.Op.ReadAt.{ReadAtOp}
use vibeio.Op.Await.{poll_all, completed, op_gets_its_result, failed_first_poll}
use vibeio.Op.Dropped.{dropped_read_keeps_its_buffer}
use vibeio.Op.OverMio.{mio_poller, blocked_read_is_woken}
use vibeio.Op.Paths.{syscall_result, answer_of, filled, read_paths_agree, long_buffers}

abbrev Ring : Type 0
Ring = UringDriver (List (Option HandleRegistration)) (List (Option Completion)) (List Sqe)

abbrev empty : Ring
empty = record { registrations = []; completions = []; ring = []; pending_submissions = false }

abbrev handle : InnerRawHandle
handle = record { handle = 5; token = 0; interest = 1; mode = Handle.completion }

abbrev read : ReadOp VecBuf
read = record {
  handle = handle;
  buf = inline (record { len = 0; capacity = 4 });
  completion_token = none;
}

submitted : (submit_completion empty (as_entry (Read.build_completion_entry read)) 7).0 ≡ retry 0
unfolding submit_completion push_entry Read.build_completion_entry
submitted = refl

-- Polled with the wakers 7 and 8; three bytes come.
op_gets_its_result_example :
    let (op, d) = poll_all empty read (7 ∷ 8 ∷ []) in
    let last = poll_completion (completed d 0 3) op 9 in
    ((drain_cqe d.registrations d.completions (encode_completion_key 0) 3).wakers ≡ 8 ∷ [])
    × (last.0 ≡ (finish (record op { completion_token = none }) 3).0)
    × (last.1 ≡ (finish (record op { completion_token = none }) 3).1)
    × (slots.get last.2.completions 0 ≡ (if 0 == 0 then none else slots.get d.completions 0))
op_gets_its_result_example =
    op_gets_its_result empty read 7 (8 ∷ []) 0 3 9 0 refl submitted (omega arith)

-- A buffer that is too long for an entry.
abbrev long_read : ReadAtOp VecBuf
long_read = record {
  handle = handle;
  buf = inline (record { len = 0; capacity = 2 ^ 32 });
  offset = 0;
  completion_token = none;
}

refused :
    (submit_completion empty (as_entry (ReadAt.build_completion_entry long_read)) 7).0
    ≡ submit_err invalid_input
unfolding submit_completion push_entry ReadAt.build_completion_entry
refused = refl

failed_first_poll_run :
    let polled = poll_completion ⦃operations = ReadAt.operation⦄ empty long_read 7 in
    (polled.0 ≡ ready (err invalid_input))
    × (ReadAtOp.completion_token polled.1 ≡ none)
    × (polled.2.completions ≡ empty.completions)
    × (polled.2.registrations ≡ empty.registrations)
failed_first_poll_run =
    failed_first_poll ⦃operations = ReadAt.operation⦄ empty long_read 7 invalid_input refl
      (λ op. refl) refused

abbrev in_flight : Ring
in_flight = record {
  registrations = [];
  completions = some (record { waiter = some 7; completed = none; ignored_data = none }) ∷ [];
  ring = [];
  pending_submissions = false;
}

IsWithout-others : IsWithout 0 ((0, 1) ∷ (5, 1) ∷ [])
unfolding IsWithout decode_token decode_key_kind
IsWithout-others = (inr refl, (inl (λ p. omega arith), tt))

-- The box of an inline buffer is 1, and that of a boxed one its capacity and 2.
abbrev box_of : CompletionBuffer VecBuf → ℕ
box_of (inline buf) = 1
box_of (boxed buf) = buf.capacity + 2

abbrev held : ReadOp VecBuf
held = record read { completion_token = some 0 }

dropped_read_keeps_its_buffer_example :
    let d' = Read.drop box_of in_flight held in
    let kept : Completion = record { waiter = some 7; completed = none; ignored_data = some 6 } in
    (slots.get (drain_cq d'.registrations d'.completions ((0, 1) ∷ (5, 1) ∷ [])).completions 0
      ≡ some kept)
    × (slots.get d'.completions 1
        ≡ (if 0 == 1 then some kept else slots.get in_flight.completions 1))
    × (slots.get (completed d' 0 4).completions 1
        ≡ (if 0 == 1 then none else slots.get in_flight.completions 1))
unfolding into_inner
dropped_read_keeps_its_buffer_example =
    dropped_read_keeps_its_buffer box_of in_flight held 0 7 4 1 ((0, 1) ∷ (5, 1) ∷ []) (omega arith)
      (refl, refl) IsWithout-others

-- The next poll of mio brings an event of token 0, where descriptor 5 stands.
abbrev source : MioDriver (List (Option Registration)) Table
source =
    (register_handle (new (record { sources = λ fd. none; incoming = 0 ∷ []; found = [] })) 5 1).1

submits_reader : (submit_poll source read.handle.token 9 1).0 ≡ ok tt
unfolding submit_poll register_handle new
submits_reader = refl

abbrev blocked : MioDriver (List (Option Registration)) Table
blocked = (Read.poll_poll (err would_block) source read 9).2

event_comes : has 0 (tables.events (tables.poll blocked.poll none).1) ≡ true
unfolding Read.poll_poll Read.end_poll poll_result_or_wait wait_for submit_poll register_handle new
    has
event_comes = refl

polls : (tables.poll blocked.poll none).0 ≡ polled
polls = refl

blocked_read_is_woken_example :
    ((Read.poll_poll (err would_block) source read 9).0 ≡ pending)
    × ((Read.poll_poll (err would_block) source read 9).1 ≡ read)
    × ((wakes : List ℕ) × (after : MioDriver (List (Option Registration)) Table) × (wait_timeout
            blocked none
          ≡ some (wakes, after))
        × (has 9 wakes ≡ true)
        × ((fd : ℕ) × (tables.watch blocked.poll fd ≡ some (0, 1))
            × (slots.get after.registrations 0
                ≡ some (record { fd = fd; waiter = none; interest = none }))))
blocked_read_is_woken_example =
    blocked_read_is_woken source read 9 none (omega arith)
      (Reach-IsSynced (next (start _ (λ fd. refl)) (registers 5 1))) submits_reader polls
      event_comes

-- The slot of an operation whose three bytes have come.
abbrev answered : Ring
answered = record empty {
  completions = some (record { waiter = some 7; completed = some 3; ignored_data = none }) ∷ [];
}

read_paths_agree_example :
    let (result, op, ring) =
      Read.poll_completion answered (record read { completion_token = some 0 }) 9 in
    (Read.poll_poll (syscall_result 3) source read 9
      ≡ (answer_of 3, record read { buf = filled read.buf 3 }, source))
    × (result ≡ answer_of 3)
    × (op ≡ record read { buf = filled read.buf 3; completion_token = none })
    × (slots.get ring.completions 0 ≡ (if 0 == 0 then none else slots.get answered.completions 0))
read_paths_agree_example = read_paths_agree read source answered 0 9 3 0 (some 7) (omega arith) refl

long_buffers_run :
    (ReadAt.build_completion_entry long_read ≡ err invalid_input)
    × (Read.build_completion_entry read ≡ ok (Opcode.read 5 (4 % 2 ^ 32) none))
unfolding as_ref
long_buffers_run = long_buffers read long_read (omega arith)
