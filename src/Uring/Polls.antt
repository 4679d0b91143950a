-- ===== src/Uring/Polls.antt =====
-- Readers and writers that wait for one descriptor by polls of the ring.
use vibeio.Prelude.{
  ℕ, ◌-◌, ◌<◌, ◌^◌, ◌≡◌, refl, true, false, Option, none, some, [], ◌∷◌, ok, arith, ◌==◌,
  if◌then◌else◌,
}
use vibeio.Slab.{Slab}
use vibeio.Uring.Ring.{Sqes, poll_add}
use vibeio.Uring.{
  Interest, PollRegistration, HandleRegistration, poll, Completion, UringDriver, encode_poll_key,
  interest_to_poll_mask, arm_poll, is_armed, take_poll, take_poll_at, map_poll, update_waiter,
}
use vibeio.Uring.Keys.{decode-encode}
use vibeio.Uring.Calls.{push_poll_add, submit_poll, push_entry_lem, woken}
use vibeio.Uring.Queue.{drain_cqe}

abbrev pub reads : Interest
reads = record { readable = true; writable = false }

abbrev pub writes : Interest
writes = record { readable = false; writable = true }

pub update_waiter_lem : (slot : Option ℕ) (waker : ℕ) → update_waiter slot waker ≡ some waker
unfolding update_waiter
update_waiter_lem none waker = refl
update_waiter_lem (some old) waker = ground arith

module _ {S C : Type 0} ⦃slab : Slab S HandleRegistration⦄ ⦃pool : Slab C Completion⦄ where
  -- A completed poll of a token.
  drain-poll :
      (s : S) (c : C) (token result j : ℕ) (r : PollRegistration)
      → token < 2 ^ 63 - 1
      → slab.get s token ≡ some (poll r)
      → let after = drain_cqe s c (encode_poll_key token) result in
        (after.wakers ≡ woken (take_poll r).0)
        × (slab.get after.registrations j
            ≡ (if token == j then some (poll (take_poll r).1) else slab.get s j))
  unfolding drain_cqe
  drain-poll s c token result j r h at = (
    ground (arith, decode-encode token h),
    ground (arith, decode-encode token h, slab.get-update s token take_poll_at j),
  )

module _ {S C R : Type 0} ⦃slab : Slab S HandleRegistration⦄ ⦃pool : Slab C Completion⦄
    ⦃sqes : Sqes R⦄ where
  registrations-push_poll_add :
      (d : UringDriver S C R) (token fd mask : ℕ)
      → (push_poll_add d token fd mask).1.registrations ≡ d.registrations
  unfolding push_poll_add
  registrations-push_poll_add d token fd mask =
      (push_entry_lem d (poll_add fd mask (encode_poll_key token))).0

  get-submit_poll :
      (d : UringDriver S C R) (token waker j : ℕ) (interest : Interest) (r : PollRegistration)
      → slab.get d.registrations token ≡ some (poll r)
      → (submit_poll d token waker interest).0 ≡ ok tt
      → slab.get (submit_poll d token waker interest).1.registrations j ≡ (
          if token == j
          then some (poll (arm_poll interest waker r))
          else slab.get d.registrations j)
  unfolding submit_poll
  get-submit_poll d token waker j interest r at p =
      let armed : UringDriver S C R = record d {
        registrations = slab.update d.registrations token (map_poll (arm_poll interest waker));
      } in
      ground (
        arith,
        slab.get-update d.registrations token (map_poll (arm_poll interest waker)) j,
        registrations-push_poll_add armed token r.fd (interest_to_poll_mask interest),
      )

  ring-submit_armed :
      (d : UringDriver S C R) (token waker : ℕ) (interest : Interest) (r : PollRegistration)
      → slab.get d.registrations token ≡ some (poll r)
      → is_armed interest r ≡ true
      → (submit_poll d token waker interest).1.ring ≡ d.ring
  unfolding submit_poll
  ring-submit_armed d token waker interest r at armed = ground arith

  -- Where no poll of the other direction is armed and `submit_poll` succeeds for a token below 2 ^
  -- 63 - 1, the next poll that completes for the token wakes the waker that it took, and no poll is
  -- armed after it.
  pub submitted_poll_is_woken :
      (d : UringDriver S C R) (token waker result : ℕ) (interest : Interest) (r : PollRegistration)
      → token < 2 ^ 63 - 1
      → slab.get d.registrations token ≡ some (poll r)
      → (if interest.writable then r.poll_read_armed else r.poll_write_armed) ≡ false
      → (submit_poll d token waker interest).0 ≡ ok tt
      → let d' = (submit_poll d token waker interest).1 in
        let after = drain_cqe d'.registrations d'.completions (encode_poll_key token) result in
        (after.wakers ≡ waker ∷ [])
        × ((s : PollRegistration) × (slab.get after.registrations token ≡ some (poll s))
            × (s.poll_read_armed ≡ false)
            × (s.poll_write_armed ≡ false))
  unfolding take_poll arm_poll
  submitted_poll_is_woken d token waker result interest r h at other_idle p =
      let d' = (submit_poll d token waker interest).1 in
      let armed = arm_poll interest waker r in
      let at' : slab.get d'.registrations token ≡ some (poll armed) =
        ground (arith, get-submit_poll d token waker token interest r at p) in
      let drained = drain-poll d'.registrations d'.completions token result token armed h at' in
      (
        ground (
          arith,
          drained,
          update_waiter_lem r.waiter_read waker,
          update_waiter_lem r.waiter_write waker,
        ),
        ((take_poll armed).1, ground (arith, drained), ground arith, ground arith),
      )

  -- When a writer waits after a reader for a descriptor in the poll mode, both with success and
  -- under a token below 2 ^ 63 - 1, the completion of the reader's poll wakes the writer and not
  -- the reader. The reader's waker stays behind, marked as armed although its poll is gone, so that
  -- a further wait of the reader submits no poll.
  pub read_event_wakes_writer :
      (d : UringDriver S C R) (token reader writer result : ℕ) (r : PollRegistration)
      → token < 2 ^ 63 - 1
      → slab.get d.registrations token ≡ some (poll r)
      → (submit_poll d token reader reads).0 ≡ ok tt
      → let d1 = (submit_poll d token reader reads).1 in
        (submit_poll d1 token writer writes).0 ≡ ok tt
        → let d2 = (submit_poll d1 token writer writes).1 in
          let after = drain_cqe d2.registrations d2.completions (encode_poll_key token) result in
          (after.wakers ≡ writer ∷ [])
          × ((s : PollRegistration) × (slab.get after.registrations token ≡ some (poll s))
              × (s.waiter_read ≡ some reader)
              × (s.poll_read_armed ≡ true))
          × (let d3 : UringDriver S C R = record d2 { registrations = after.registrations } in
              (submit_poll d3 token reader reads).1.ring ≡ d2.ring)
  unfolding take_poll arm_poll
  read_event_wakes_writer d token reader writer result r h at p q =
      let d1 = (submit_poll d token reader reads).1 in
      let d2 = (submit_poll d1 token writer writes).1 in
      let r1 = arm_poll reads reader r in
      let r2 = arm_poll writes writer r1 in
      let at1 : slab.get d1.registrations token ≡ some (poll r1) =
        ground (arith, get-submit_poll d token reader token reads r at p) in
      let at2 : slab.get d2.registrations token ≡ some (poll r2) =
        ground (arith, get-submit_poll d1 token writer token writes r1 at1 q) in
      let drained = drain-poll d2.registrations d2.completions token result token r2 h at2 in
      let after = drain_cqe d2.registrations d2.completions (encode_poll_key token) result in
      let d3 : UringDriver S C R = record d2 { registrations = after.registrations } in
      (
        ground (arith, drained, update_waiter_lem r.waiter_write writer),
        ((take_poll r2).1, ground (arith, drained), update_waiter_lem r.waiter_read reader, refl),
        ring-submit_armed d3 token reader reads (take_poll r2).1 (ground (arith, drained)) refl,
      )
