-- ===== src/Join/Deliver.antt =====
-- What a handle gets from its task, and when it is woken.
use vibeio.Prelude.{ℕ, ◌≡◌, refl, false, Option, none, some, [], ◌∷◌, arith}
use vibeio.Join.{Poll, ready, pending, JoinState, cancel, poll_task, poll_handle, update_waker_slot}

-- A slot wakes the last waker that was put into it.
update_waker_slot_lem : (slot : Option ℕ) (waker : ℕ) → update_waker_slot slot waker ≡ some waker
unfolding update_waker_slot
update_waker_slot_lem none waker = refl
update_waker_slot_lem (some old) waker = ground arith

module _ {F T : Type 0} (step : F → Poll T × F) where
  -- A canceled task is not polled any more: its future stays as it is, and the task ends.
  pub canceled_is_not_polled :
      (future : F) (state : JoinState T)
      → let polled = poll_task step future (cancel state) in
        (polled.future ≡ future)
        × (polled.state ≡ cancel state)
        × (polled.wakes ≡ [])
        × (polled.answer ≡ ready tt)
  unfolding poll_task cancel
  canceled_is_not_polled future state = (refl, refl, refl, refl)

  -- A handle that waits for a task is woken by the poll that ends the task, through the waker of the
  -- handle's last poll, and its next poll gives the value; the one after that gives no second value.
  pub handle_gets_output :
      (future rest : F) (state : JoinState T) (waker next : ℕ) (value : T)
      → state.output ≡ none
      → state.canceled ≡ false
      → step future ≡ (ready value, rest)
      → let waiting = (poll_handle state waker).1 in
        let polled = poll_task step future waiting in
        ((poll_handle state waker).0 ≡ pending)
        × (polled.wakes ≡ waker ∷ [])
        × (polled.answer ≡ ready tt)
        × ((poll_handle polled.state next).0 ≡ ready value)
        × ((poll_handle (poll_handle polled.state next).1 next).0 ≡ pending)
  unfolding poll_handle poll_task
  handle_gets_output future rest state waker next value empty live ends =
      rw (empty, live, ends, update_waker_slot_lem state.waker waker) (refl, refl, refl, refl, refl)
