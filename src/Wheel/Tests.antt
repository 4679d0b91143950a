-- ===== src/Wheel/Tests.antt =====
-- The wheel's theorems at concrete wheels, and runs of the wheel.
use vibeio.Prelude.{
  ℕ, ◌+◌, ◌≤◌, ◌<◌, ◌%◌, ◌/◌, ◌^◌, ◌≡◌, ◌⊎◌, refl, true, Option, none, some, List, [], arith, has,
  ◌==◌, ◌&&◌, if◌then◌else◌,
}
use vibeio.Slab.Slots.{slots}
use vibeio.Slab.{Slab}
use vibeio.Wheel.Levels.{calculate_level_and_slot, level_spans_delay}
use vibeio.Wheel.Drain.{Same}
use vibeio.Wheel.Heap.{push, refresh}
use vibeio.Wheel.Invariant.{IsWellFormed}
use vibeio.Wheel.History.{Reach, start, next, inserts, advances, Reach-IsWellFormed, lateness_bound}
use vibeio.Wheel.Remove.{remove_old_handle, remove-insert, get-remove, is_live}
use vibeio.Wheel.Firing.{advance_never_early, advance_fate, advance_fires_upper}
use vibeio.Wheel.Nearest.{nearest_wakeup_least}
use vibeio.Wheel.Missed.{advance_misses_due_timer}
use vibeio.Wheel.{
  remove_entry, refresh_min_expiration, TimingWheel, TimerEntry, TimerHandle, new, new_entry,
  insert, remove, advance, nearest_wakeup,
}

abbrev Store : Type 0
Store = List (Option TimerEntry)

-- A wheel with the timer of waker 7, which is set for tick 100.
abbrev one_timer : TimingWheel Store
one_timer = (insert new 7 100).1

abbrev timer_7 : TimerEntry
timer_7 = record { waker = 7; expiration_tick = 100; generation = 1; level = 1; slot = 1 }

one_timer_7 : Slab.get slots one_timer.entries 0 ≡ some timer_7
unfolding insert new calculate_level_and_slot
one_timer_7 = refl

one_timer-Reach : Reach one_timer
unfolding new
one_timer-Reach = next start (inserts 7 100 (omega arith) (omega arith))

-- The wheel of the first test in timer.rs with two timers: nothing fires at 50, and the timer is
-- still there.
abbrev half_way : TimingWheel Store
half_way = (advance one_timer 50).1

half_way-Reach : Reach half_way
half_way-Reach = next one_timer-Reach (advances 50 (unfold insert new in omega arith))

lateness_bound_example : one_timer.current_tick < 164
lateness_bound_example = lateness_bound 0 timer_7 one_timer-Reach one_timer_7

Reach-IsWellFormed_example : IsWellFormed half_way
Reach-IsWellFormed_example = Reach-IsWellFormed half_way-Reach

room_100 : one_timer.current_tick + 100 < 2 ^ 64
unfolding insert new
room_100 = omega arith

advance_fate_example :
    ((Slab.get slots (advance one_timer 100).1.entries 0 ≡ none)
      × (100 ≤ one_timer.current_tick + 100)
      × (has 7 (advance one_timer 100).0 ≡ true))
    ⊎ ((f : TimerEntry) × (Slab.get slots (advance one_timer 100).1.entries 0 ≡ some f)
        × Same timer_7 f)
advance_fate_example = advance_fate one_timer 100 0 timer_7 room_100 one_timer_7

advance_fires_upper_example :
    (Slab.get slots (advance one_timer 100).1.entries 0 ≡ none)
    × (has 7 (advance one_timer 100).0 ≡ true)
advance_fires_upper_example =
    advance_fires_upper one_timer 100 0 timer_7 (Reach-IsWellFormed one_timer-Reach) room_100
      (omega arith) one_timer_7 (omega arith) (omega arith)

advance_never_early_example :
    (k : ℕ) × (e : TimerEntry) × (Slab.get slots one_timer.entries k ≡ some e)
    × (e.waker ≡ 7)
    × (e.expiration_tick ≤ one_timer.current_tick + 100)
advance_never_early_example =
    advance_never_early one_timer 100 7 room_100 advance_fires_upper_example.1

nearest_wakeup_least_example :
    (((nearest_wakeup one_timer).0 ≡ none) × ((k : ℕ) → Slab.get slots one_timer.entries k ≡ none))
    ⊎ ((k : ℕ) × (e : TimerEntry) × (Slab.get slots one_timer.entries k ≡ some e)
        × ((nearest_wakeup one_timer).0 ≡ some e.expiration_tick)
        × ((j : ℕ) (f : TimerEntry)
            → Slab.get slots one_timer.entries j ≡ some f
            → e.expiration_tick ≤ f.expiration_tick))
nearest_wakeup_least_example = nearest_wakeup_least one_timer (Reach-IsWellFormed one_timer-Reach)

-- A wheel at tick 100 without timers.
abbrev at_100 : TimingWheel Store
at_100 = record (new {S = Store}) { current_tick = 100 }

advance_misses_due_timer_example :
    ((advance (insert at_100 7 110).1 10).0 ≡ [])
    × ((advance (insert at_100 7 110).1 10).1.current_tick ≡ 110)
unfolding new
advance_misses_due_timer_example =
    advance_misses_due_timer at_100 7 10 (λ level slot. refl) (omega arith) (omega arith)
      (omega arith) (omega arith)

-- The handle of the first timer cannot cancel the second one, which stands at the same index.
abbrev old : TimerHandle
old = record { slab_index = 0; generation = 1 }

abbrev emptied : TimingWheel Store
emptied = remove one_timer old

reuses_index : ((insert emptied 8 200).0.slab_index ≡ 0) × (emptied.generation_counter ≡ 1)
unfolding insert new calculate_level_and_slot remove remove_entry refresh_min_expiration push
    refresh
reuses_index = (refl, refl)

remove_old_handle_run :
    Slab.get slots (remove (insert emptied 8 200).1 old).entries (insert emptied 8 200).0.slab_index
    ≡ some (new_entry emptied 8 200)
remove_old_handle_run =
    remove_old_handle emptied 8 200 old (omega (arith, reuses_index.1))
      (omega (arith, reuses_index.1))

remove-insert_run :
    Slab.get slots (remove (insert one_timer 8 200).1 (insert one_timer 8 200).0).entries 0
    ≡ Slab.get slots one_timer.entries 0
remove-insert_run = remove-insert one_timer 8 200 0

get-remove_run :
    Slab.get slots (remove one_timer old).entries 0
    ≡ (if 0 == 0 && is_live one_timer old then none else Slab.get slots one_timer.entries 0)
get-remove_run = get-remove one_timer old 0

level_spans_delay_run :
    let (level, slot) = calculate_level_and_slot 5000 in
    ((level ≡ 0) ⊎ (64 ^ level ≤ 5000))
    × ((level ≡ 6) ⊎ (5000 < 64 ^ (level + 1)))
    × (slot ≡ 5000 / 64 ^ level % 64)
level_spans_delay_run = level_spans_delay 5000
