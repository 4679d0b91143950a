-- ===== src/Sleep/Tests.antt =====
-- Sleeps over a timer without timers.
use vibeio.Prelude.{◌+◌, ◌≤◌, ◌<◌, ◌≡◌, ◌⊎◌, refl, true, false, Option, some, List, arith, has}
use vibeio.Slab.{Slab}
use vibeio.Slab.Slots.{slots}
use vibeio.Wheel.{TimerEntry, TimerHandle}
use vibeio.Timer.{Timer, submit, nanos_per_milli}
use vibeio.Timer
use vibeio.Sleep.Poll.{ready_at_deadline, pending_is_woken}
use vibeio.Sleep.{Sleep, new, poll, first_poll, later_poll, handle_immediate_wakeup}

abbrev fresh_timer : Timer (List (Option TimerEntry))
fresh_timer = Timer.new 0

-- A sleep of 5 milliseconds that begins at 0, and one of half a millisecond.
abbrev five : Sleep
five = new 0 5000000

abbrev half : Sleep
half = new 0 500000

half_is_ready : (poll half fresh_timer 1 7).is_ready ≡ true
unfolding poll first_poll later_poll handle_immediate_wakeup submit Timer.new
half_is_ready = refl

five_is_pending : (poll five fresh_timer 1 7).is_ready ≡ false
unfolding poll first_poll later_poll handle_immediate_wakeup submit Timer.new
five_is_pending = refl

instant_lem : fresh_timer.instant ≡ 0
unfolding Timer.new
instant_lem = refl

ready_at_deadline_run : (500000 ≤ 1) ⊎ (500000 < fresh_timer.instant + nanos_per_milli)
ready_at_deadline_run =
    ready_at_deadline half fresh_timer 1 7 refl (rw instant_lem (omega arith)) half_is_ready

pending_is_woken_example :
    let polled = poll five fresh_timer 1 7 in
    (has 7 polled.wakes ≡ true)
    ⊎ ((handle : TimerHandle) × (entry : TimerEntry) × (polled.sleep.handle ≡ some handle)
        × (Slab.get slots polled.timer.wheel.entries handle.slab_index ≡ some entry)
        × (entry.waker ≡ 7)
        × (entry.generation ≡ handle.generation))
pending_is_woken_example = pending_is_woken five fresh_timer 1 7 five_is_pending
