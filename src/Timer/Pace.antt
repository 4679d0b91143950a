-- ===== src/Timer/Pace.antt =====
-- How the tick follows the clock over a row of spins.
use vibeio.Prelude.{
  ℕ, ◌+◌, ◌-◌, ◌*◌, ◌/◌, ◌≤◌, ◌<◌, ◌^◌, ◌≡◌, refl, ◌∙◌, none, some, List, [], ◌∷◌, arith, add64,
}
use vibeio.Slab.{Slab}
use vibeio.Wheel
use vibeio.Wheel.{TimingWheel, TimerEntry, TimerHandle, new_entry}
use vibeio.Wheel.Advance.{tick-advance-le, advance-zero, tick-nearest_wakeup}
use vibeio.Wheel.Insert.{get-insert, tick-insert, generation-insert}
use vibeio.Timer.{
  Timer, millis_since, nanos_per_milli, submit, cancel, spin_and_get_deadline, spins,
}

-- A clock that does not go back.
abbrev pub IsMonotone : ℕ → List ℕ → Type 0
IsMonotone last [] = Unit {0}
IsMonotone last (now ∷ rest) = (last ≤ now) × IsMonotone now rest

-- Each instant is less than a millisecond after the one before.
abbrev pub IsQuick : ℕ → List ℕ → Type 0
IsQuick last [] = Unit {0}
IsQuick last (now ∷ rest) = (now < last + nanos_per_milli) × IsQuick now rest

module _ {S : Type 0} ⦃slab : Slab S TimerEntry⦄ where
  instant-spin : (t : Timer S) (now : ℕ) → (spin_and_get_deadline t now).timer.instant ≡ now
  unfolding spin_and_get_deadline
  instant-spin t now = ground arith

  tick-spin-le :
      (t : Timer S) (now : ℕ)
      → (spin_and_get_deadline t now).timer.wheel.current_tick
        ≤ t.wheel.current_tick + millis_since now t.instant
  unfolding spin_and_get_deadline
  tick-spin-le t now =
      let millis = millis_since now t.instant in
      ground (
        arith,
        tick-advance-le t.wheel millis,
        tick-nearest_wakeup (Wheel.advance t.wheel millis).1,
      )

  -- The tick advances by a millisecond at most for each millisecond of the clock.
  tick-spins-le :
      (t : Timer S) (times : List ℕ)
      → IsMonotone t.instant times
      → t.instant + nanos_per_milli * (spins t times).1.wheel.current_tick
        ≤ (spins t times).1.instant + nanos_per_milli * t.wheel.current_tick
  unfolding spins
  tick-spins-le t [] h = omega arith
  tick-spins-le t (now ∷ rest) h = omega (
    arith,
    instant-spin t now,
    tick-spin-le t now,
    tick-spins-le (spin_and_get_deadline t now).timer rest (rw instant-spin h.1),
  )

  submitted :
      (t t' : Timer S) (deadline waker : ℕ) (handle : TimerHandle) (e : TimerEntry)
      → t.wheel.current_tick + (deadline - t.instant) < 2 ^ 64
      → submit t deadline waker ≡ (some handle, [], t')
      → slab.get t'.wheel.entries handle.slab_index ≡ some e
      → (t'.instant ≡ t.instant)
        × (t'.wheel.current_tick ≡ t.wheel.current_tick)
        × (e.waker ≡ waker)
        × (e.expiration_tick ≡ t.wheel.current_tick + (deadline - t.instant) / nanos_per_milli)
  unfolding submit
  submitted t t' deadline waker handle e room set found =
      let tick = add64 t.wheel.current_tick (millis_since deadline t.instant) in
      ground
        (arith, get-insert t.wheel waker tick handle.slab_index, tick-insert t.wheel waker tick)

  -- A timer that `submit` sets does not fire a millisecond or more before its deadline: when a row of
  -- spins of a clock that does not go back has brought the wheel to the timer's tick, the clock has
  -- passed the deadline less one millisecond.
  pub submit_not_early :
      (t t' : Timer S) (deadline waker : ℕ) (handle : TimerHandle) (times : List ℕ) (e : TimerEntry)
      → t.wheel.current_tick + (deadline - t.instant) < 2 ^ 64
      → IsMonotone t.instant times
      → submit t deadline waker ≡ (some handle, [], t')
      → slab.get t'.wheel.entries handle.slab_index ≡ some e
      → e.expiration_tick ≤ (spins t' times).1.wheel.current_tick
      → (e.waker ≡ waker) × (deadline < (spins t' times).1.instant + nanos_per_milli)
  submit_not_early t t' deadline waker handle times e room mono set found reached =
      let (start, tick, same, due) = submitted t t' deadline waker handle e room set found in
      (same, omega (arith, tick-spins-le t' times (rw start mono)))

  spin_quick :
      (t : Timer S) (now : ℕ)
      → now < t.instant + nanos_per_milli
      → ((spin_and_get_deadline t now).woken ≡ [])
        × ((spin_and_get_deadline t now).timer.wheel.current_tick ≡ t.wheel.current_tick)
  unfolding spin_and_get_deadline
  spin_quick t now h =
      let still : millis_since now t.instant ≡ 0 = omega arith in
      rw still (ground (arith, advance-zero t.wheel, tick-nearest_wakeup t.wheel))

  -- The fraction of a millisecond that a spin leaves over is dropped: as long as each spin comes less
  -- than a millisecond after the one before, the tick stands still and nothing is woken, however long
  -- that goes on.
  pub quick_spins_stand_still :
      (t : Timer S) (times : List ℕ)
      → IsQuick t.instant times
      → ((spins t times).0 ≡ []) × ((spins t times).1.wheel.current_tick ≡ t.wheel.current_tick)
  unfolding spins
  quick_spins_stand_still t [] h = (refl, refl)
  quick_spins_stand_still t (now ∷ rest) h =
      let (quiet, still) = spin_quick t now h.0 in
      let (quiet', still') =
        quick_spins_stand_still (spin_and_get_deadline t now).timer rest (rw instant-spin h.1) in
      (rw (quiet, quiet'), still' ∙ still)

  -- A submission without a handle has a deadline less than a millisecond away; the others have their
  -- entry.
  pub submit-none :
      (t : Timer S) (deadline waker : ℕ)
      → (submit t deadline waker).0 ≡ none
      → deadline - t.instant < 2 ^ 64
      → deadline < t.instant + nanos_per_milli
  unfolding submit
  submit-none t deadline waker h room = ground arith

  pub submit-some :
      (t : Timer S) (deadline waker : ℕ) (handle : TimerHandle)
      → (submit t deadline waker).0 ≡ some handle
      → (entry : TimerEntry) × (slab.get (submit t deadline waker).2.wheel.entries handle.slab_index
          ≡ some entry)
        × (entry.waker ≡ waker)
        × (entry.generation ≡ handle.generation)
  unfolding submit
  submit-some t deadline waker handle h =
      let tick = add64 t.wheel.current_tick (millis_since deadline t.instant) in
      (
        new_entry t.wheel waker tick,
        ground (arith, get-insert t.wheel waker tick handle.slab_index),
        refl,
        ground (arith, generation-insert t.wheel waker tick),
      )

  -- The wakers that a submission wakes are the one it was given, where it makes no timer.
  pub wakes-submit :
      (t : Timer S) (deadline waker : ℕ)
      → (submit t deadline waker).0 ≡ none
      → (submit t deadline waker).1 ≡ waker ∷ []
  unfolding submit
  wakes-submit t deadline waker h = ground arith

  pub instant-cancel : (t : Timer S) (handle : TimerHandle) → (cancel t handle).instant ≡ t.instant
  unfolding cancel
  instant-cancel t handle = refl
