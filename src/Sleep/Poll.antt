-- ===== src/Sleep/Poll.antt =====
-- When a sleep is ready, and who wakes it when it is not.
use vibeio.Prelude.{
  ℕ, ◌+◌, ◌-◌, ◌≤◌, ◌<◌, ◌^◌, ◌≡◌, ◌⊎◌, inl, inr, true, false, some, [], ◌∷◌, leb, arith, has,
  has-cons, has-append, Bool-cases, Option-cases,
}
use vibeio.Slab.{Slab}
use vibeio.Wheel.{TimerEntry, TimerHandle}
use vibeio.Timer.{Timer, submit, nanos_per_milli, millis_since}
use vibeio.Timer
use vibeio.Timer.Pace.{submit-none, submit-some, wakes-submit, instant-cancel}
use vibeio.Sleep.{Sleep, poll, first_poll, later_poll, handle_immediate_wakeup}

module _ {S : Type 0} ⦃slab : Slab S TimerEntry⦄ where
  -- A sleep that has not fired, whose deadline is less than 2 ^ 64 nanoseconds beyond the timer's
  -- instant, is ready only when the deadline has come, or is less than a millisecond beyond the
  -- instant at which the timer was last spun.
  pub ready_at_deadline :
      (sleep : Sleep) (timer : Timer S) (now waker : ℕ)
      → sleep.fired ≡ false
      → sleep.deadline - timer.instant < 2 ^ 64
      → (poll sleep timer now waker).is_ready ≡ true
      → (sleep.deadline ≤ now) ⊎ (sleep.deadline < timer.instant + nanos_per_milli)
  unfolding poll first_poll later_poll handle_immediate_wakeup
  ready_at_deadline sleep timer now waker h room r = elim (Option-cases sleep.handle) [
    | inl p ↦ elim (Option-cases (submit timer sleep.deadline waker).0) [
      | inl q ↦ inr (submit-none timer sleep.deadline waker q room)
      | inr (handle, q) ↦ absurd (ground arith)
    ]
    | inr (old, p) ↦ elim (Bool-cases (leb sleep.deadline now)) [
      | inl due ↦ inl (ground arith)
      | inr early ↦
          let cancelled = Timer.cancel timer old in
          elim (Option-cases (submit cancelled sleep.deadline waker).0) [
            | inl q ↦ inr (
                ground
                  (arith, instant-cancel timer old, submit-none cancelled sleep.deadline waker q))
            | inr (handle, q) ↦ absurd (ground arith)
          ]
    ]
  ]

  -- A poll that is not ready has either woken the task or left a timer for it: the handle that the
  -- sleep holds leads to an entry of the wheel with the poll's own waker.
  pub pending_is_woken :
      (sleep : Sleep) (timer : Timer S) (now waker : ℕ)
      → (poll sleep timer now waker).is_ready ≡ false
      → let polled = poll sleep timer now waker in
        (has waker polled.wakes ≡ true)
        ⊎ ((handle : TimerHandle) × (entry : TimerEntry) × (polled.sleep.handle ≡ some handle)
            × (slab.get polled.timer.wheel.entries handle.slab_index ≡ some entry)
            × (entry.waker ≡ waker)
            × (entry.generation ≡ handle.generation))
  unfolding poll first_poll later_poll handle_immediate_wakeup
  pending_is_woken sleep timer now waker r = elim (Bool-cases sleep.fired) [
    | inl f ↦ absurd (ground arith)
    | inr f ↦ elim (Option-cases sleep.handle) [
      | inl p ↦ elim (Option-cases (submit timer sleep.deadline waker).0) [
        | inl q ↦ inl (
            ground (
              arith,
              wakes-submit timer sleep.deadline waker q,
              has-append waker (waker ∷ []) (waker ∷ []),
              has-cons waker waker [],
            ))
        | inr (handle, q) ↦
            let (entry, at, same, generation) = submit-some timer sleep.deadline waker handle q in
            inr (handle, entry, ground arith, ground arith, same, generation)
      ]
      | inr (old, p) ↦
          let cancelled = Timer.cancel timer old in
          elim (Option-cases (submit cancelled sleep.deadline waker).0) [
            | inl q ↦ absurd (ground arith)
            | inr (handle, q) ↦
                let (entry, at, same, generation) =
                  submit-some cancelled sleep.deadline waker handle q in
                inr (handle, entry, ground arith, ground arith, same, generation)
          ]
    ]
  ]
