-- ===== src/Op/OverMio.antt =====
-- Operations that are polled over the mio driver, here the read of vibeio/src/op/read.rs. mio's READABLE is 1 and its WRITABLE 2.
use vibeio.Prelude.{
  ℕ, ◌≡◌, ◌≢◌, refl, Bool, true, Option, none, some, List, ok, err, would_block, arith, has,
  if◌then◌else◌,
}
use vibeio.Slab.{Slab}
use vibeio.Join.{pending}
use vibeio.Driver.Mio.{Registry, polled}
use vibeio.Driver.Sync.{IsSynced}
use vibeio.Driver.Submit.{submitted_is_woken}
use vibeio.Driver.{Registration, MioDriver, submit_poll, wait_timeout, interrupt_token}
use vibeio.Op.Buffer.{IoBufMut}
use vibeio.Op.Read
use vibeio.Op.Read.{ReadOp}
use vibeio.Op.{Poller, wait_for, poll_result_or_wait}

abbrev pub interest : Bool → ℕ
interest writable = if writable then 2 else 1

instance abbrev pub mio_poller :
    {S K : Type 0} ⦃slab : Slab S Registration⦄ ⦃registry : Registry K⦄ → Poller (MioDriver S K)
mio_poller = record {
  submit_poll = λ d token waker writable. submit_poll d token waker (interest writable);
}

module _ {B S K : Type 0} ⦃buffer : IoBufMut B⦄ ⦃slab : Slab S Registration⦄
    ⦃registry : Registry K⦄ where
  blocked_read :
      (d : MioDriver S K) (op : ReadOp B) (waker : ℕ)
      → (submit_poll d op.handle.token waker 1).0 ≡ ok tt
      → Read.poll_poll (err would_block) d op waker
        ≡ (pending, op, (submit_poll d op.handle.token waker 1).1)
  unfolding Read.poll_poll Read.end_poll poll_result_or_wait wait_for
  blocked_read d op waker p = ground (arith, p)

  -- Over a mio driver that agrees with mio and takes the waker, a read whose system call is refused
  -- with EAGAIN is pending, with the operation as it was, and mio watches the handle's source for
  -- READABLE. The next wait that succeeds and brings an event of the handle's token, which is not the
  -- interruptor's, wakes the waker, and leaves that source with no waiter and no interest.
  pub blocked_read_is_woken :
      (d : MioDriver S K) (op : ReadOp B) (waker : ℕ) (timeout : Option ℕ)
      → op.handle.token ≢ interrupt_token
      → IsSynced d
      → (submit_poll d op.handle.token waker 1).0 ≡ ok tt
      → let (result, op', d') = Read.poll_poll (err would_block) d op waker in
        ((registry.poll d'.poll timeout).0 ≡ polled)
        → has op.handle.token (registry.events (registry.poll d'.poll timeout).1) ≡ true
        → (result ≡ pending)
          × (op' ≡ op)
          × ((wakes : List ℕ) × (after : MioDriver S K) × (wait_timeout d' timeout
                ≡ some (wakes, after))
              × (has waker wakes ≡ true)
              × ((fd : ℕ) × (registry.watch d'.poll fd ≡ some (op.handle.token, 1))
                  × (slab.get after.registrations op.handle.token
                      ≡ some (record { fd = fd; waiter = none; interest = none }))))
  blocked_read_is_woken d op waker timeout h synced p =
      rw (blocked_read d op waker p) (λ outcome event.
        (refl, refl, submitted_is_woken d op.handle.token waker 1 timeout h synced p outcome event))
