-- ===== src/Op/Await.antt =====
-- The life of an operation over io_uring, from its first poll to its result.
use vibeio.Prelude.{
  ℕ, ◌-◌, ◌<◌, ◌^◌, ◌≡◌, refl, Option, none, some, List, [], ◌∷◌, err, IoError, arith, ◌==◌,
  if◌then◌else◌,
}
use vibeio.Slab.{Slab}
use vibeio.Join.{ready}
use vibeio.Uring.{HandleRegistration, Completion, UringDriver, encode_completion_key, update_waiter}
use vibeio.Uring.Ring.{Sqes}
use vibeio.Uring.Calls.{submit_completion, submit_completion_failed, retry, submit_err, complete}
use vibeio.Uring.Queue.{drain_cqe, drain_completion, get_completion_result, set_completion_waker}
use vibeio.Uring.Polls.{update_waiter_lem}
use vibeio.Uring.Completions.{
  get-submit_completion, drain-key, get-drain_completion, wakers-drain_completion,
  get-get_completion_result,
}
use vibeio.Op.{CompletionOp, as_entry, finish, poll_in_flight, poll_first, poll_completion}

abbrev pub waiting : ℕ → Completion
waiting waker = record { waiter = some waker; completed = none; ignored_data = none }

abbrev pub last_waker : ℕ → List ℕ → ℕ
last_waker waker [] = waker
last_waker waker (next ∷ wakers) = last_waker next wakers

module _ {S C R : Type 0} ⦃pool : Slab C Completion⦄ where
  -- An operation in flight with a token, whose completion wakes the waker.
  abbrev pub IsInFlight : UringDriver S C R → Option ℕ → ℕ → ℕ → Type 0
  IsInFlight d held token waker =
      (held ≡ some token) × (pool.get d.completions token ≡ some (waiting waker))

module _ {S C R : Type 0} ⦃slab : Slab S HandleRegistration⦄ ⦃pool : Slab C Completion⦄ where
  -- What the completion of the token makes of the driver.
  abbrev pub completed : UringDriver S C R → ℕ → ℕ → UringDriver S C R
  completed d token result =
      let after = drain_cqe d.registrations d.completions (encode_completion_key token) result in
      record d { registrations = after.registrations; completions = after.completions }

module _ {S C R O : Type 0} ⦃slab : Slab S HandleRegistration⦄ ⦃pool : Slab C Completion⦄
    ⦃sqes : Sqes R⦄ ⦃operations : CompletionOp O⦄ where
  -- Polls of an operation, one waker each.
  unfoldable pub poll_all : UringDriver S C R → O → List ℕ → O × UringDriver S C R
  unfolding poll_completion
  poll_all d op [] = (op, d)
  poll_all d op (waker ∷ wakers) =
      let polled = poll_completion d op waker in poll_all polled.2 polled.1 wakers

  first_poll-IsInFlight :
      (d : UringDriver S C R) (op : O) (waker token : ℕ)
      → operations.completion_token op ≡ none
      → (submit_completion d (as_entry (operations.entry op)) waker).0 ≡ retry token
      → IsInFlight
          (poll_completion d op waker).2
          (operations.completion_token (poll_completion d op waker).1)
          token
          waker
  unfolding poll_completion poll_first
  first_poll-IsInFlight d op waker token fresh q = (
    ground (arith, operations.token-set (operations.built op) (some token)),
    ground (arith, get-submit_completion d (as_entry (operations.entry op)) waker token token q),
  )

  repoll-IsInFlight :
      (d : UringDriver S C R) (op : O) (token old waker : ℕ)
      → IsInFlight d (operations.completion_token op) token old
      → IsInFlight
          (poll_completion d op waker).2
          (operations.completion_token (poll_completion d op waker).1)
          token
          waker
  unfolding poll_completion poll_in_flight set_completion_waker get_completion_result
  repoll-IsInFlight d op token old waker (held, at) = (
    ground arith,
    ground (
      arith,
      update_waiter_lem (some old) waker,
      pool.get-update d.completions token
          (λ entry. record entry { waiter = update_waiter entry.waiter waker }) token,
    ),
  )

  poll_all-IsInFlight :
      (d : UringDriver S C R) (op : O) (token old : ℕ) (wakers : List ℕ)
      → IsInFlight d (operations.completion_token op) token old
      → IsInFlight
          (poll_all d op wakers).1
          (operations.completion_token (poll_all d op wakers).0)
          token
          (last_waker old wakers)
  unfolding poll_all
  poll_all-IsInFlight d op token old [] h = h
  poll_all-IsInFlight d op token old (waker ∷ wakers) h =
      let polled = poll_completion d op waker in
      poll_all-IsInFlight polled.2 polled.1 token waker wakers
        (repoll-IsInFlight d op token old waker h)

  -- A submission that fails is reported at once; the operation holds no token, and no slot of the
  -- driver is taken, so that the operation can be polled again.
  pub failed_first_poll :
      (d : UringDriver S C R) (op : O) (waker : ℕ) (e : IoError)
      → operations.completion_token op ≡ none
      → ((op' : O)
          → operations.completion_token (operations.built op') ≡ operations.completion_token op')
      → (submit_completion d (as_entry (operations.entry op)) waker).0 ≡ submit_err e
      → let polled = poll_completion d op waker in
        (polled.0 ≡ ready (err e))
        × (operations.completion_token polled.1 ≡ none)
        × (polled.2.completions ≡ d.completions)
        × (polled.2.registrations ≡ d.registrations)
  unfolding poll_completion poll_first
  failed_first_poll d op waker e fresh same p =
      let kept = submit_completion_failed d (as_entry (operations.entry op)) waker e p in
      (ground arith, ground (arith, same op), ground (arith, kept), ground (arith, kept))

  in_flight_completes :
      (d : UringDriver S C R) (op : O) (token waker result next j : ℕ)
      → token < 2 ^ 63 - 1
      → IsInFlight d (operations.completion_token op) token waker
      → let last = poll_completion (completed d token result) op next in
        ((drain_cqe d.registrations d.completions (encode_completion_key token) result).wakers
          ≡ waker ∷ [])
        × (last.0 ≡ (finish (operations.set_completion_token op none) result).0)
        × (last.1 ≡ (finish (operations.set_completion_token op none) result).1)
        × (pool.get last.2.completions j ≡ (if token == j then none else pool.get d.completions j))
  unfolding poll_completion poll_in_flight
  in_flight_completes d op token waker result next j h (held, at) =
      let after = drain_completion d.registrations d.completions token result in
      let same = drain-key d.registrations d.completions token result h in
      let there : pool.get after.completions token ≡ some (complete result (waiting waker)) =
        ground (
          arith,
          get-drain_completion d.registrations d.completions token result token (waiting waker) at
              refl,
        ) in
      let got = λ (k : ℕ).
        get-get_completion_result after.completions token k (complete result (waiting waker)) result
          there refl in
      (
        ground (
          arith,
          same,
          wakers-drain_completion d.registrations d.completions token result (waiting waker) at,
        ),
        ground (arith, same, got token),
        ground (arith, same, got token),
        ground (
          arith,
          same,
          got j,
          get-drain_completion d.registrations d.completions token result j (waiting waker) at refl,
        ),
      )

  -- An operation that is submitted with a token below 2 ^ 63 - 1 and polled again and again before
  -- its completion comes is woken through the waker of the last poll; the poll after that finishes
  -- with the kernel's result, and gives back the slot and touches no other.
  pub op_gets_its_result :
      (d : UringDriver S C R) (op : O) (waker : ℕ) (wakers : List ℕ) (token result next j : ℕ)
      → operations.completion_token op ≡ none
      → (submit_completion d (as_entry (operations.entry op)) waker).0 ≡ retry token
      → token < 2 ^ 63 - 1
      → let (op', d') = poll_all d op (waker ∷ wakers) in
        let last = poll_completion (completed d' token result) op' next in
        ((drain_cqe d'.registrations d'.completions (encode_completion_key token) result).wakers
          ≡ last_waker waker wakers ∷ [])
        × (last.0 ≡ (finish (operations.set_completion_token op' none) result).0)
        × (last.1 ≡ (finish (operations.set_completion_token op' none) result).1)
        × (pool.get last.2.completions j ≡ (if token == j then none else pool.get d'.completions j))
  unfolding poll_all
  op_gets_its_result d op waker wakers token result next j fresh p h =
      let first = poll_completion d op waker in
      let polled = poll_all d op (waker ∷ wakers) in
      in_flight_completes polled.1 polled.0 token (last_waker waker wakers) result next j h (
        poll_all-IsInFlight first.2 first.1 token waker wakers
          (first_poll-IsInFlight d op waker token fresh p))
