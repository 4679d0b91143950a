-- ===== src/Driver/Submit.antt =====
-- `submit_poll`: what holds when it returns, and that the waker it took is woken.
use vibeio.Prelude.{
  ℕ, ◌≡◌, ◌≢◌, refl, true, Option, none, some, inl, inr, List, [], ok, err, IoError, arith,
  Option-cases, has, has-cons,
}
use vibeio.Slab.{Slab}
use vibeio.Driver.Mio.{Registry, polled}
use vibeio.Driver.Sync.{IsSynced}
use vibeio.Driver.Steps.{
  IsUnchanged, register_fails, reregister_fails, deregister_fails, submit_fails,
}
use vibeio.Driver.Events.{waits, handle_events_wakes, get-handle_events}
use vibeio.Driver.{
  Registration, MioDriver, register_handle, reregister_handle, deregister_handle, submit_poll,
  handle_events, wait_timeout, set_interest, set_waiter, interrupt_token, update_waiter,
}

update_waiter_lem : (slot : Option ℕ) (waker : ℕ) → update_waiter slot waker ≡ some waker
unfolding update_waiter
update_waiter_lem none waker = refl
update_waiter_lem (some old) waker = ground arith

module _ {S K : Type 0} ⦃slab : Slab S Registration⦄ ⦃registry : Registry K⦄ where
  -- What a successful `submit_poll` leaves behind: the registration waits with the waker, and mio
  -- watches its source for the interest, under its token.
  pub IsArmed : MioDriver S K → ℕ → ℕ → ℕ → Type 0
  IsArmed d token waker interest =
      (r : Registration) × (slab.get d.registrations token ≡ some r)
      × (r.waiter ≡ some waker)
      × (r.interest ≡ some interest)
      × (registry.watch d.poll r.fd ≡ some (token, interest))

  -- When `submit_poll` succeeds on a driver that agrees with mio, the registration waits with the
  -- given waker, and mio watches its source for the given interest under its token, also where mio
  -- was not asked again.
  pub submit_poll_arms :
      (d : MioDriver S K) (token waker interest : ℕ)
      → IsSynced d
      → (submit_poll d token waker interest).0 ≡ ok tt
      → IsArmed (submit_poll d token waker interest).1 token waker interest
  unfolding submit_poll IsArmed
  submit_poll_arms d token waker interest h p =
      elim (Option-cases (slab.get d.registrations token)) [
        | inl q ↦ absurd (ground arith)
        | inr (r, q) ↦
            let armed : Registration = record {
              fd = r.fd;
              waiter = some waker;
              interest = some interest;
            } in
            let (i, watched, agrees) = h.listed token r q in
            (
              armed,
              ground (
                arith,
                agrees interest,
                slab.get-update d.registrations token (set_interest (some interest)) token,
                slab.get-update d.registrations token (set_waiter waker) token,
                slab.get-update (slab.update d.registrations token (set_interest (some interest)))
                    token (set_waiter waker) token,
                update_waiter_lem r.waiter waker,
              ),
              refl,
              refl,
              ground
                  (arith, agrees interest, registry.reregister_ok d.poll r.fd token interest r.fd),
            )
      ]

  -- In a driver that agrees with mio, a waker that `submit_poll` took with success is woken by the
  -- next wait that succeeds and brings an event of its token, which is not the interruptor's. The
  -- registration, whose source is the one that mio watches for the interest under that token, waits
  -- for nothing after it: its waiter is gone and its interest is reset.
  pub submitted_is_woken :
      (d : MioDriver S K) (token waker interest : ℕ) (timeout : Option ℕ)
      → token ≢ interrupt_token
      → IsSynced d
      → (submit_poll d token waker interest).0 ≡ ok tt
      → let d' = (submit_poll d token waker interest).1 in
        ((registry.poll d'.poll timeout).0 ≡ polled)
        → has token (registry.events (registry.poll d'.poll timeout).1) ≡ true
        → (wakes : List ℕ) × (after : MioDriver S K) × (wait_timeout d' timeout
            ≡ some (wakes, after))
          × (has waker wakes ≡ true)
          × ((fd : ℕ) × (registry.watch d'.poll fd ≡ some (token, interest))
              × (slab.get after.registrations token
                  ≡ some (record { fd = fd; waiter = none; interest = none })))
  unfolding wait_timeout waits IsArmed
  submitted_is_woken d token waker interest timeout h synced p outcome event =
      let d' : MioDriver S K = (submit_poll d token waker interest).1 in
      let k = (registry.poll d'.poll timeout).1 in
      let result = handle_events d'.registrations (registry.events k) in
      let (r, at, waiter, _, watched) = submit_poll_arms d token waker interest synced p in
      (
        result.0,
        record { registrations = result.1; poll = k },
        rw (wait_timeout, outcome) refl,
        handle_events_wakes d'.registrations (registry.events k) token waker h
            (ground (arith, has-cons waker waker [])) event,
        (
          r.fd,
          watched,
          ground
              (arith, get-handle_events d'.registrations (registry.events k) token, at, event, h),
        ),
      )

  -- A call that fails leaves every registration and every source as it was.
  pub errors_change_nothing :
      (d : MioDriver S K) (fd token waker interest : ℕ) (e : IoError)
      → ((register_handle d fd interest).0 ≡ err e
          → IsUnchanged d (register_handle d fd interest).1)
        × ((reregister_handle d token interest).0 ≡ err e
            → IsUnchanged d (reregister_handle d token interest).1)
        × ((deregister_handle d token).0 ≡ err e → IsUnchanged d (deregister_handle d token).1)
        × ((submit_poll d token waker interest).0 ≡ err e
            → IsUnchanged d (submit_poll d token waker interest).1)
  errors_change_nothing d fd token waker interest e = (
    register_fails d fd interest e,
    reregister_fails d token interest e,
    deregister_fails d token e,
    submit_fails d token waker interest e,
  )
