-- ===== src/Driver.antt =====
-- `MioDriver` of vibeio/src/driver/mio.rs. The crate mio is the interface `Registry`; a token is the
-- key of the slab, and wakers and interests are numbers.
pub mod Mio
pub mod Table
pub mod Sync
pub mod Steps
pub mod Events
pub mod Effects
pub mod Submit
pub mod History
mod Tests
use vibeio.Prelude.{
  ℕ, ◌-◌, ◌^◌, Bool, true, false, Option, none, some, List, [], ◌∷◌, ◌++◌, Result, ok, err, IoError,
  not_found, ◌==◌, if◌then◌else◌,
}
use vibeio.Slab.{Slab}
use vibeio.Driver.Mio.{Registry, Outcome, polled, was_interrupted, failed}

pub record Registration : Type 0 where
  pub fd : ℕ
  pub waiter : Option ℕ
  pub interest : Option ℕ

-- The driver's slab, and what the operating system knows of it.
pub record MioDriver (S K : Type 0) : Type 0 where
  pub registrations : S
  pub poll : K

-- `Token(usize::MAX)`, the token of the interruptor.
abbrev pub interrupt_token : ℕ
interrupt_token = 2 ^ 64 - 1

-- A waker that would wake the same task is kept.
pub update_waiter : Option ℕ → ℕ → Option ℕ
update_waiter none waker = some waker
update_waiter (some waiter) waker = if waiter == waker then some waiter else some waker

abbrev pub same_interest : Option ℕ → ℕ → Bool
same_interest none interest = false
same_interest (some old) interest = old == interest

abbrev pub set_interest : Option ℕ → Registration → Registration
set_interest interest r = record r { interest = interest }

abbrev pub set_waiter : ℕ → Registration → Registration
set_waiter waker r = record r { waiter = update_waiter r.waiter waker }

-- What an event does to the registration of its token.
abbrev pub take_waiter : Registration → Registration
take_waiter r = record r { waiter = none; interest = none }

abbrev pub woken : Option ℕ → List ℕ
woken none = []
woken (some waker) = waker ∷ []

module _ {S : Type 0} ⦃slab : Slab S Registration⦄ where
  -- One event. The wakers that are woken, and the slab.
  pub handle_event : S → ℕ → List ℕ × S
  handle_event s token = if token == interrupt_token then ([], s) else elim (slab.get s token) [
    | none ↦ ([], s)
    | some r ↦ (woken r.waiter, slab.update s token take_waiter)
  ]

  pub handle_events : S → List ℕ → List ℕ × S
  handle_events s [] = ([], s)
  handle_events s (token ∷ events) =
      let (first, s') = handle_event s token in
      let (rest, s'') = handle_events s' events in (first ++ rest, s'')

module _ {S K : Type 0} ⦃slab : Slab S Registration⦄ ⦃registry : Registry K⦄ where
  unfoldable pub new : K → MioDriver S K
  new poll = record { registrations = slab.empty; poll = poll }

  -- The entry is made first, since its key is the token, and goes again if mio refuses the source.
  unfoldable pub register_handle : MioDriver S K → ℕ → ℕ → Result ℕ × MioDriver S K
  register_handle d fd interest =
      let (token, registrations) =
        slab.insert d.registrations (record { fd = fd; waiter = none; interest = some interest }) in
      let (result, poll) = registry.register d.poll fd token interest in
      elim result [
        | ok _ ↦ (ok token, record { registrations = registrations; poll = poll })
        | err e ↦ (err e, record { registrations = slab.remove registrations token; poll = poll })
      ]

  pub reregister_handle : MioDriver S K → ℕ → ℕ → Result (Unit {0}) × MioDriver S K
  reregister_handle d token interest = elim (slab.get d.registrations token) [
    | none ↦ (err not_found, d)
    | some r ↦
        let (result, poll) = registry.reregister d.poll r.fd token interest in
        elim result [
          | ok _ ↦ (
            ok tt,
            record {
              registrations = slab.update d.registrations token (set_interest (some interest));
              poll = poll;
            },
          )
          | err e ↦ (err e, record d { poll = poll })
        ]
  ]

  pub deregister_handle : MioDriver S K → ℕ → Result (Unit {0}) × MioDriver S K
  deregister_handle d token = elim (slab.get d.registrations token) [
    | none ↦ (err not_found, d)
    | some r ↦
        let (result, poll) = registry.deregister d.poll r.fd in
        elim result [
          | ok _ ↦
              (ok tt, record { registrations = slab.remove d.registrations token; poll = poll })
          | err e ↦ (err e, record d { poll = poll })
        ]
  ]

  -- The end of `submit_poll`.
  abbrev pub arm : MioDriver S K → ℕ → ℕ → MioDriver S K
  arm d token waker = record d {
    registrations = slab.update d.registrations token (set_waiter waker);
  }

  -- mio is asked only where the interest has changed.
  unfoldable pub submit_poll : MioDriver S K → ℕ → ℕ → ℕ → Result (Unit {0}) × MioDriver S K
  unfolding update_waiter
  submit_poll d token waker interest = elim (slab.get d.registrations token) [
    | none ↦ (err not_found, d)
    | some r ↦
        if same_interest r.interest interest
        then (ok tt, arm d token waker)
        else (let (result, poll) = registry.reregister d.poll r.fd token interest in
            elim result [
              | ok _ ↦ (
                ok tt,
                arm
                    (record {
                      registrations =
                          slab.update d.registrations token (set_interest (some interest));
                      poll = poll;
                    })
                    token waker,
              )
              | err e ↦ (err e, record d { poll = poll })
            ])
  ]

  -- The wakers that are woken, and the driver; nothing where the code panics.
  pub wait_timeout : MioDriver S K → Option ℕ → Option (List ℕ × MioDriver S K)
  wait_timeout d timeout =
      let (outcome, poll) = registry.poll d.poll timeout in
      let (wakes, registrations) = handle_events d.registrations (registry.events poll) in
      let after : MioDriver S K = record { registrations = registrations; poll = poll } in
      elim outcome [
        | polled ↦ some (wakes, after)
        | was_interrupted ↦ some (wakes, after)
        | failed e ↦ none
      ]
