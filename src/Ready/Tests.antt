-- ===== src/Ready/Tests.antt =====
-- The theorems on the ready queues at concrete queues.
use vibeio.Prelude.{◌≡◌, refl, true, false, [], ◌∷◌, arith, take, drop, has, count-nil}
use vibeio.Ready.Batch.{all_ready, drain_ready_takes}
use vibeio.Ready.Queued.{
  IsConsistent, Reach, here, next, spawns, wakes, wakes_remote, Reach-IsConsistent,
}
use vibeio.Ready.Woken.{woken_is_drained}
use vibeio.Ready.{Queues, enqueue, drain, drain_ready, wake_local, wake_remote}

abbrev idle : Queues
idle = record {
  alive = true;
  next_task = [];
  remote_queue = [];
  queue = [];
  queued = λ t. false;
  waiting = true;
  interrupt_pending = false;
  interrupts = 0;
}

idle-IsConsistent : IsConsistent idle
idle-IsConsistent = record { once = λ t. count-nil t; capped = omega arith }

-- Task 1 is spawned, task 2 woken by another thread, and task 3 in place.
abbrev busy : Queues
busy = wake_local (wake_remote (enqueue idle 1) 2) 3

busy-Reach : Reach idle busy
busy-Reach = next (next (next here (spawns 1 refl)) (wakes_remote 2)) (wakes 3)

batch_of_two : ((drain_ready busy 2).0 ≡ 3 ∷ 2 ∷ []) × (busy.interrupts ≡ 1)
unfolding enqueue drain_ready drain wake_local wake_remote
batch_of_two = (refl, refl)

drain_ready_takes_example :
    ((drain_ready busy 2).0 ≡ take 2 (all_ready busy))
    × (all_ready (drain_ready busy 2).1 ≡ drop 2 (all_ready busy))
drain_ready_takes_example = drain_ready_takes busy 2

Reach-IsConsistent_example : IsConsistent busy × (busy.alive ≡ true)
Reach-IsConsistent_example = Reach-IsConsistent busy-Reach idle-IsConsistent refl

woken_is_drained_run :
    (has 4 (drain_ready (wake_local idle 4) 8).0 ≡ true)
    × (has 4 (drain_ready (wake_remote idle 4) 8).0 ≡ true)
woken_is_drained_run = woken_is_drained idle 4 8 idle-IsConsistent refl (omega arith)
