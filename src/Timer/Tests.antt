-- ===== src/Timer/Tests.antt =====
-- The timer's theorems at concrete timers.
use vibeio.Prelude.{
  ℕ, ◌+◌, ◌-◌, ◌*◌, ◌≤◌, ◌<◌, ◌^◌, ◌≡◌, ◌∙◌, ◌⊎◌, refl, Option, none, some, List, [], ◌∷◌, arith,
  max,
}
use vibeio.Slab.Slots.{slots}
use vibeio.Slab.{Slab}
use vibeio.Wheel
use vibeio.Wheel.Levels.{calculate_level_and_slot}
use vibeio.Wheel.{TimerEntry, TimerHandle}
use vibeio.Wheel.Invariant.{IsWellFormed, new-IsWellFormed}
use vibeio.Wheel.Advance.{tick-advance, tick-nearest_wakeup}
use vibeio.Timer.Pace.{submit_not_early, quick_spins_stand_still}
use vibeio.Timer.Deadline.{submit-IsWellFormed, spin-IsWellFormed, spin_deadline}
use vibeio.Timer.{Timer, new, submit, spin_and_get_deadline, spins, nanos_per_milli}

abbrev Store : Type 0
Store = List (Option TimerEntry)

-- A timer at instant 5 ms, with the timer of waker 7 set for 8.5 ms.
abbrev fresh : Timer Store
fresh = new (5 * nanos_per_milli)

abbrev waiting : Timer Store
waiting = (submit fresh 8_500_000 7).2

abbrev handle_7 : TimerHandle
handle_7 = record { slab_index = 0; generation = 1 }

submit_7 : submit fresh 8_500_000 7 ≡ (some handle_7, [], waiting)
unfolding submit new Wheel.insert Wheel.new
submit_7 = refl

abbrev entry_7 : TimerEntry
entry_7 = record { waker = 7; expiration_tick = 3; generation = 1; level = 0; slot = 3 }

found_7 : Slab.get slots waiting.wheel.entries 0 ≡ some entry_7
unfolding submit new Wheel.insert Wheel.new calculate_level_and_slot
found_7 = refl

fresh-IsWellFormed : IsWellFormed fresh.wheel
unfolding new
fresh-IsWellFormed = new-IsWellFormed

reached_3 : (spins waiting (8_000_000 ∷ [])).1.wheel.current_tick ≡ 3
unfolding spins spin_and_get_deadline submit new Wheel.insert Wheel.new Wheel.is_empty
reached_3 =
    tick-nearest_wakeup (Wheel.advance waiting.wheel 3).1
    ∙ tick-advance waiting.wheel 3 (omega arith)

-- The tick 3 is reached with the spin at 8.0 ms, half a millisecond before the deadline.
submit_not_early_run :
    (entry_7.waker ≡ 7) × (8_500_000 < (spins waiting (8_000_000 ∷ [])).1.instant + nanos_per_milli)
unfolding new
submit_not_early_run =
    submit_not_early fresh waiting 8_500_000 7 handle_7 (8_000_000 ∷ []) entry_7
      (unfold Wheel.new in omega arith) (omega arith) submit_7 found_7 (rw reached_3 (omega arith))

quick_spins_stand_still_run :
    ((spins waiting (5_900_000 ∷ 6_800_000 ∷ [])).0 ≡ [])
    × ((spins waiting (5_900_000 ∷ 6_800_000 ∷ [])).1.wheel.current_tick
        ≡ waiting.wheel.current_tick)
quick_spins_stand_still_run =
    quick_spins_stand_still waiting (5_900_000 ∷ 6_800_000 ∷ []) (unfold submit new in omega arith)

submit-IsWellFormed_run : IsWellFormed waiting.wheel
submit-IsWellFormed_run =
    submit-IsWellFormed fresh 8_500_000 7 fresh-IsWellFormed (unfold new Wheel.new in omega arith)
      (unfold new Wheel.new in omega arith)

room_8 : waiting.wheel.current_tick + (8_000_000 - waiting.instant) < 2 ^ 64
unfolding submit new Wheel.insert Wheel.new
room_8 = omega arith

room_6 : waiting.wheel.current_tick + (6_000_000 - waiting.instant) < 2 ^ 64
unfolding submit new Wheel.insert Wheel.new
room_6 = omega arith

spin-IsWellFormed_run : IsWellFormed (spin_and_get_deadline waiting 8_000_000).timer.wheel
spin-IsWellFormed_run = spin-IsWellFormed waiting 8_000_000 submit-IsWellFormed_run room_8

spin_deadline_run :
    let s = spin_and_get_deadline waiting 6_000_000 in
    ((s.deadline ≡ none) × ((k : ℕ) → Slab.get slots s.timer.wheel.entries k ≡ none))
    ⊎ ((k : ℕ) × (e : TimerEntry) × (Slab.get slots s.timer.wheel.entries k ≡ some e)
        × (s.deadline ≡ some (max (e.expiration_tick - s.timer.wheel.current_tick) 1))
        × ((j : ℕ) (f : TimerEntry)
            → Slab.get slots s.timer.wheel.entries j ≡ some f
            → e.expiration_tick ≤ f.expiration_tick))
spin_deadline_run = spin_deadline waiting 6_000_000 submit-IsWellFormed_run room_6
