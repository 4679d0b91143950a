-- ===== src/Driver/Steps.antt =====
-- Every operation of the driver keeps its slab and mio's sources in agreement, and one that fails
-- changes neither.
use vibeio.Prelude.{
  Result-cases, ℕ, ◌≡◌, refl, Option, none, some, inl, inr, List, [], ◌∷◌, err, IoError, arith,
  ◌==◌, Option-cases, Bool-cases,
}
use vibeio.Slab.{Slab}
use vibeio.Driver.Mio.{Registry}
use vibeio.Driver.Sync.{
  IsInSync, IsSynced, insert-IsInSync, remove-IsInSync, interest-IsInSync, update-IsInSync,
  same-IsInSync,
}
use vibeio.Driver.{
  Registration, MioDriver, register_handle, reregister_handle, deregister_handle, submit_poll,
  handle_event, handle_events, wait_timeout, set_waiter, take_waiter, same_interest, arm,
  interrupt_token,
}

module _ {S K : Type 0} ⦃slab : Slab S Registration⦄ ⦃registry : Registry K⦄ where
  -- The same registrations and the same sources.
  abbrev pub IsUnchanged : MioDriver S K → MioDriver S K → Type 0
  IsUnchanged d d' =
      ((token : ℕ) → slab.get d'.registrations token ≡ slab.get d.registrations token)
      × ((fd : ℕ) → registry.watch d'.poll fd ≡ registry.watch d.poll fd)

  pub unchanged-IsSynced : {d d' : MioDriver S K} → IsUnchanged d d' → IsSynced d → IsSynced d'
  unchanged-IsSynced (a, b) h = same-IsInSync _ _ _ _ a b h

  pub register_fails :
      (d : MioDriver S K) (fd interest : ℕ) (e : IoError)
      → (register_handle d fd interest).0 ≡ err e
      → IsUnchanged d (register_handle d fd interest).1
  unfolding register_handle
  register_fails d fd interest e h =
      let r : Registration = record { fd = fd; waiter = none; interest = some interest } in
      let token = (slab.insert d.registrations r).0 in
      (
        λ j. ground (
          arith,
          slab.get-remove (slab.insert d.registrations r).1 token j,
          slab.get-insert d.registrations r j,
          slab.insert_vacant d.registrations r,
        ),
        λ j. ground (arith, registry.register_err d.poll fd token interest e j),
      )

  pub reregister_fails :
      (d : MioDriver S K) (token interest : ℕ) (e : IoError)
      → (reregister_handle d token interest).0 ≡ err e
      → IsUnchanged d (reregister_handle d token interest).1
  unfolding reregister_handle
  reregister_fails d token interest e h = elim (Option-cases (slab.get d.registrations token)) [
    | inl p ↦ (λ j. ground arith, λ j. ground arith)
    | inr (r, p) ↦ (
      λ j. ground arith,
      λ j. ground (arith, registry.reregister_err d.poll r.fd token interest e j),
    )
  ]

  pub deregister_fails :
      (d : MioDriver S K) (token : ℕ) (e : IoError)
      → (deregister_handle d token).0 ≡ err e
      → IsUnchanged d (deregister_handle d token).1
  unfolding deregister_handle
  deregister_fails d token e h = elim (Option-cases (slab.get d.registrations token)) [
    | inl p ↦ (λ j. ground arith, λ j. ground arith)
    | inr (r, p) ↦ (λ j. ground arith, λ j. ground (arith, registry.deregister_err d.poll r.fd e j))
  ]

  pub submit_fails :
      (d : MioDriver S K) (token waker interest : ℕ) (e : IoError)
      → (submit_poll d token waker interest).0 ≡ err e
      → IsUnchanged d (submit_poll d token waker interest).1
  unfolding submit_poll
  submit_fails d token waker interest e h = elim (Option-cases (slab.get d.registrations token)) [
    | inl p ↦ (λ j. ground arith, λ j. ground arith)
    | inr (r, p) ↦ (
      λ j. ground arith,
      λ j. ground (arith, registry.reregister_err d.poll r.fd token interest e j),
    )
  ]

  pub register-IsSynced :
      (d : MioDriver S K) (fd interest : ℕ)
      → IsSynced d
      → IsSynced (register_handle d fd interest).1
  unfolding register_handle
  register-IsSynced d fd interest h =
      let r : Registration = record { fd = fd; waiter = none; interest = some interest } in
      let token = (slab.insert d.registrations r).0 in
      elim (Result-cases (registry.register d.poll fd token interest).0) [
        | inr (e, p) ↦ unchanged-IsSynced (register_fails d fd interest e (ground arith)) h
        | inl (_, p) ↦
            rw (register_handle, p)
              (insert-IsInSync d.registrations d.poll _ r interest h
                (registry.register_new d.poll fd token interest p) refl
                (λ j. registry.register_ok d.poll fd token interest j p))
      ]

  pub reregister-IsSynced :
      (d : MioDriver S K) (token interest : ℕ)
      → IsSynced d
      → IsSynced (reregister_handle d token interest).1
  unfolding reregister_handle
  reregister-IsSynced d token interest h = elim (Option-cases (slab.get d.registrations token)) [
    | inl q ↦ rw (reregister_handle, q) h
    | inr (r, q) ↦ elim (Result-cases (registry.reregister d.poll r.fd token interest).0) [
      | inr (e, p) ↦ unchanged-IsSynced (reregister_fails d token interest e (ground arith)) h
      | inl (_, p) ↦
          rw (reregister_handle, q, p)
            (interest-IsInSync d.registrations d.poll _ token interest r h q
              (λ j. registry.reregister_ok d.poll r.fd token interest j p))
    ]
  ]

  pub deregister-IsSynced :
      (d : MioDriver S K) (token : ℕ) → IsSynced d → IsSynced (deregister_handle d token).1
  unfolding deregister_handle
  deregister-IsSynced d token h = elim (Option-cases (slab.get d.registrations token)) [
    | inl q ↦ rw (deregister_handle, q) h
    | inr (r, q) ↦ elim (Result-cases (registry.deregister d.poll r.fd).0) [
      | inr (e, p) ↦ unchanged-IsSynced (deregister_fails d token e (ground arith)) h
      | inl (_, p) ↦
          rw (deregister_handle, q, p)
            (remove-IsInSync d.registrations d.poll _ token r h q
              (λ j. registry.deregister_ok d.poll r.fd j p))
    ]
  ]

  arm-IsSynced : (d : MioDriver S K) (token waker : ℕ) → IsSynced d → IsSynced (arm d token waker)
  arm-IsSynced d token waker h =
      update-IsInSync d.registrations d.poll token (set_waiter waker) (λ r. (refl, inl refl)) h

  pub submit-IsSynced :
      (d : MioDriver S K) (token waker interest : ℕ)
      → IsSynced d
      → IsSynced (submit_poll d token waker interest).1
  unfolding submit_poll
  submit-IsSynced d token waker interest h = elim (Option-cases (slab.get d.registrations token)) [
    | inl q ↦ rw (submit_poll, q) h
    | inr (r, q) ↦ elim (Bool-cases (same_interest r.interest interest)) [
      | inl same ↦ rw (submit_poll, q, same) (arm-IsSynced d token waker h)
      | inr other ↦ elim (Result-cases (registry.reregister d.poll r.fd token interest).0) [
        | inr (e, p) ↦ unchanged-IsSynced (submit_fails d token waker interest e (ground arith)) h
        | inl (_, p) ↦
            rw (submit_poll, q, other, p)
              (arm-IsSynced _ token waker (
                interest-IsInSync d.registrations d.poll _ token interest r h q
                  (λ j. registry.reregister_ok d.poll r.fd token interest j p)))
      ]
    ]
  ]

  handle_event-IsInSync :
      (s : S) (k : K) (token : ℕ) → IsInSync s k → IsInSync (handle_event s token).1 k
  unfolding handle_event
  handle_event-IsInSync s k token h = elim (Bool-cases (token == interrupt_token)) [
    | inl p ↦ rw (handle_event, p) h
    | inr p ↦ elim (Option-cases (slab.get s token)) [
      | inl q ↦ rw (handle_event, p, q) h
      | inr (r, q) ↦
          rw (handle_event, p, q) (update-IsInSync s k token take_waiter (λ r'. (refl, inr refl)) h)
    ]
  ]

  handle_events-IsInSync :
      (s : S) (k : K) (events : List ℕ) → IsInSync s k → IsInSync (handle_events s events).1 k
  unfolding handle_events
  handle_events-IsInSync s k [] h = h
  handle_events-IsInSync s k (token ∷ events) h =
      handle_events-IsInSync (handle_event s token).1 k events (handle_event-IsInSync s k token h)

  pub wait-IsSynced :
      (d d' : MioDriver S K) (timeout : Option ℕ) (wakes : List ℕ)
      → wait_timeout d timeout ≡ some (wakes, d')
      → IsSynced d
      → IsSynced d'
  unfolding wait_timeout
  wait-IsSynced d d' timeout wakes p h =
      let k = (registry.poll d.poll timeout).1 in
      same-IsInSync (handle_events d.registrations (registry.events k)).1 d'.registrations d.poll
        d'.poll (λ token. ground arith)
        (λ fd. ground (arith, registry.watch-poll d.poll timeout fd))
        (handle_events-IsInSync d.registrations d.poll (registry.events k) h)
