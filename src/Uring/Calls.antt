-- ===== src/Uring/Calls.antt =====
-- The calls of `UringDriver`.
use vibeio.Prelude.{
  Result-cases, inl, inr, ℕ, ◌≡◌, arith, Bool, true, false, Option, none, some, List, [], ◌∷◌,
  Result, ok, err, IoError, not_found, unsupported, other, if◌then◌else◌,
}
use vibeio.Slab.{Slab}
use vibeio.Uring.Ring.{Sqes, Sqe, poll_add, read_eventfd}
use vibeio.Uring.{
  Interest, RegistrationMode, by_poll, by_completion, HandleRegistration, completion, poll,
  Completion, UringDriver, interrupt_key, encode_completion_key, encode_poll_key,
  interest_to_poll_mask, submitter_call_result, arm_poll, is_armed, disarm_poll, map_poll,
}

-- `finished` is `Ok`, which this driver does not give.
pub data CompletionIoResult : Type 0 where
  finished : (result : ℕ) → CompletionIoResult
  retry : (token : ℕ) → CompletionIoResult
  submit_err : IoError → CompletionIoResult

abbrev pub woken : Option ℕ → List ℕ
woken none = []
woken (some waker) = waker ∷ []

-- What a registration is made of.
abbrev pub register_as : RegistrationMode → ℕ → Interest → HandleRegistration
register_as by_completion fd interest = completion
register_as by_poll fd interest = poll (record {
  fd = fd;
  poll_mask = interest_to_poll_mask interest;
  waiter_read = none;
  poll_read_armed = false;
  waiter_write = none;
  poll_write_armed = false;
})

abbrev pub complete : ℕ → Completion → Completion
complete result c = record c { completed = some result; waiter = none }

abbrev pub is_some : {A : Type 0} → Option A → Bool
is_some none = false
is_some (some a) = true

module _ {S C R : Type 0} ⦃slab : Slab S HandleRegistration⦄ ⦃pool : Slab C Completion⦄
    ⦃sqes : Sqes R⦄ where
  -- The end of `push_entry`, after the queue has been emptied if it was full.
  pub push_now : UringDriver S C R → Sqe → Result (Unit {0}) × UringDriver S C R
  push_now d sqe =
      let (taken, ring) = sqes.push d.ring sqe in
      if taken
      then (ok tt, record d { ring = ring; pending_submissions = true })
      else (err other, record d { ring = ring })

  unfoldable pub push_entry : UringDriver S C R → Sqe → Result (Unit {0}) × UringDriver S C R
  unfolding submitter_call_result push_now
  push_entry d sqe =
      if sqes.is_full d.ring
      then (let (result, ring) = sqes.submit d.ring in
          elim (submitter_call_result result) [
            | err e ↦ (err e, record d { ring = ring })
            | ok _ ↦ push_now (record d { ring = ring }) sqe
          ])
      else push_now d sqe

  unfoldable pub push_poll_add :
      UringDriver S C R → ℕ → ℕ → ℕ → Result (Unit {0}) × UringDriver S C R
  unfolding encode_poll_key push_entry
  push_poll_add d token fd poll_mask = push_entry d (poll_add fd poll_mask (encode_poll_key token))

  -- Nothing where the code panics.
  pub submit_interrupt : UringDriver S C R → Option (UringDriver S C R)
  unfolding push_entry
  submit_interrupt d =
      let (result, d') = push_entry d (read_eventfd interrupt_key) in
      elim result [ err e ↦ none | ok _ ↦ some d' ]

  pub register_handle_with_mode :
      UringDriver S C R → ℕ → Interest → RegistrationMode → Result ℕ × UringDriver S C R
  register_handle_with_mode d fd interest mode =
      let (token, registrations) = slab.insert d.registrations (register_as mode fd interest) in
      (ok token, record d { registrations = registrations })

  pub reregister_handle : UringDriver S C R → ℕ → Interest → Result (Unit {0}) × UringDriver S C R
  reregister_handle d token interest = elim (slab.get d.registrations token) [
    | none ↦ (err not_found, d)
    | some _ ↦ (
      ok tt,
      record d {
        registrations =
            slab.update d.registrations token
              (map_poll (λ r. record r { poll_mask = interest_to_poll_mask interest }));
      },
    )
  ]

  -- After the kernel was asked to cancel what the descriptor has in flight.
  pub deregister_handle : UringDriver S C R → ℕ → Result (Unit {0}) × UringDriver S C R
  deregister_handle d token = elim (slab.get d.registrations token) [
    | none ↦ (err not_found, d)
    | some _ ↦ (ok tt, record d { registrations = slab.remove d.registrations token })
  ]

  unfoldable pub submit_poll :
      UringDriver S C R → ℕ → ℕ → Interest → Result (Unit {0}) × UringDriver S C R
  unfolding arm_poll disarm_poll push_poll_add
  submit_poll d token waker interest = elim (slab.get d.registrations token) [
    | none ↦ (err not_found, d)
    | some registration ↦ elim registration [
      | completion ↦ (err unsupported, d)
      | poll r ↦
          let armed : UringDriver S C R = record d {
            registrations = slab.update d.registrations token (map_poll (arm_poll interest waker));
          } in
          if is_armed interest r
          then (ok tt, armed)
          else (let (result, d') =
                push_poll_add armed token r.fd (interest_to_poll_mask interest) in
              elim result [
                | ok _ ↦ (ok tt, d')
                | err e ↦ (
                  err e,
                  record d' {
                    registrations = slab.update d'.registrations token (map_poll disarm_poll);
                  },
                )
              ])
    ]
  ]

  -- `build` is `build_completion_entry` of the operation. The slot is filled only once the entry
  -- stands in the ring.
  unfoldable pub submit_completion :
      UringDriver S C R → (ℕ → Result Sqe) → ℕ → CompletionIoResult × UringDriver S C R
  unfolding encode_completion_key push_entry
  submit_completion d build waker =
      let (token, completions) =
        pool.insert d.completions
          (record { waiter = some waker; completed = none; ignored_data = none }) in
      elim (build (encode_completion_key token)) [
        | err e ↦ (submit_err e, d)
        | ok sqe ↦
            let (result, d') = push_entry d sqe in
            elim result [
              | err e ↦ (submit_err e, d')
              | ok _ ↦ (retry token, record d' { completions = completions })
            ]
      ]

  -- The slabs are not touched by a submission.
  pub push_now_lem :
      (d : UringDriver S C R) (sqe : Sqe)
      → ((push_now d sqe).1.registrations ≡ d.registrations)
        × ((push_now d sqe).1.completions ≡ d.completions)
  unfolding push_now
  push_now_lem d sqe = (ground arith, ground arith)

  pub push_entry_lem :
      (d : UringDriver S C R) (sqe : Sqe)
      → ((push_entry d sqe).1.registrations ≡ d.registrations)
        × ((push_entry d sqe).1.completions ≡ d.completions)
  unfolding push_entry
  push_entry_lem d sqe =
      let ring = (sqes.submit d.ring).1 in
      let emptied : UringDriver S C R = record d { ring = ring } in
      (
        ground (arith, push_now_lem d sqe, push_now_lem emptied sqe),
        ground (arith, push_now_lem d sqe, push_now_lem emptied sqe),
      )

  pub submit_completion_failed :
      (d : UringDriver S C R) (build : ℕ → Result Sqe) (waker : ℕ) (e : IoError)
      → (submit_completion d build waker).0 ≡ submit_err e
      → ((submit_completion d build waker).1.registrations ≡ d.registrations)
        × ((submit_completion d build waker).1.completions ≡ d.completions)
  unfolding submit_completion
  submit_completion_failed d build waker e p =
      let fresh : Completion = record {
        waiter = some waker;
        completed = none;
        ignored_data = none;
      } in
      elim (Result-cases (build (encode_completion_key (pool.insert d.completions fresh).0))) [
        | inl (sqe, q) ↦
            (ground (arith, push_entry_lem d sqe), ground (arith, push_entry_lem d sqe))
        | inr (e', q) ↦ (ground arith, ground arith)
      ]
