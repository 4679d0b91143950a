-- ===== src/Driver/Effects.antt =====
-- What a successful registration and its end do, call by call.
use vibeio.Prelude.{ℕ, ◌≡◌, none, some, ok, err, not_found, arith, ◌==◌, if◌then◌else◌}
use vibeio.Slab.{Slab}
use vibeio.Driver.Mio.{Registry}
use vibeio.Driver.{Registration, MioDriver, register_handle, deregister_handle, submit_poll}

abbrev pub fresh : ℕ → ℕ → Registration
fresh fd interest = record { fd = fd; waiter = none; interest = some interest }

module _ {S K : Type 0} ⦃slab : Slab S Registration⦄ ⦃registry : Registry K⦄ where
  pub register_vacant :
      (d : MioDriver S K) (fd interest token : ℕ)
      → (register_handle d fd interest).0 ≡ ok token
      → (slab.get d.registrations token ≡ none) × (registry.watch d.poll fd ≡ none)
  unfolding register_handle
  register_vacant d fd interest token h =
      let key = (slab.insert d.registrations (fresh fd interest)).0 in
      (
        ground (arith, slab.insert_vacant d.registrations (fresh fd interest)),
        ground (arith, registry.register_new d.poll fd key interest),
      )

  pub get-register :
      (d : MioDriver S K) (fd interest token j : ℕ)
      → (register_handle d fd interest).0 ≡ ok token
      → slab.get (register_handle d fd interest).1.registrations j
        ≡ (if token == j then some (fresh fd interest) else slab.get d.registrations j)
  unfolding register_handle
  get-register d fd interest token j h =
      ground (arith, slab.get-insert d.registrations (fresh fd interest) j)

  pub watch-register :
      (d : MioDriver S K) (fd interest token j : ℕ)
      → (register_handle d fd interest).0 ≡ ok token
      → registry.watch (register_handle d fd interest).1.poll j
        ≡ (if fd == j then some (token, interest) else registry.watch d.poll j)
  unfolding register_handle
  watch-register d fd interest token j h =
      let key = (slab.insert d.registrations (fresh fd interest)).0 in
      ground (arith, registry.register_ok d.poll fd key interest j)

  pub get-deregister :
      (d : MioDriver S K) (token j : ℕ) (r : Registration)
      → slab.get d.registrations token ≡ some r
      → (registry.deregister d.poll r.fd).0 ≡ ok tt
      → slab.get (deregister_handle d token).1.registrations j
        ≡ (if token == j then none else slab.get d.registrations j)
  unfolding deregister_handle
  get-deregister d token j r at h = ground (arith, slab.get-remove d.registrations token j)

  pub watch-deregister :
      (d : MioDriver S K) (token j : ℕ) (r : Registration)
      → slab.get d.registrations token ≡ some r
      → (registry.deregister d.poll r.fd).0 ≡ ok tt
      → registry.watch (deregister_handle d token).1.poll j
        ≡ (if r.fd == j then none else registry.watch d.poll j)
  unfolding deregister_handle
  watch-deregister d token j r at h = ground (arith, registry.deregister_ok d.poll r.fd j)

  pub submit_unknown :
      (d : MioDriver S K) (token waker interest : ℕ)
      → slab.get d.registrations token ≡ none
      → (submit_poll d token waker interest).0 ≡ err not_found
  unfolding submit_poll
  submit_unknown d token waker interest h = ground arith
