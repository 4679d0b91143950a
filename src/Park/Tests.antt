-- ===== src/Park/Tests.antt =====
-- A run in which a task is pushed while the executor sleeps.
use vibeio.Prelude.{◌≡◌, inr, refl, true, false, [], ◌∷◌}
use vibeio.Park.{
  System, idle, taken, pushed, sleeping, init, set_worker, Reach, start, next, take_ready, clear,
  arm, check_ready, check_queues, swap_queued, push,
}
use vibeio.Park.Wakeup.{Asleep, wakeup_comes}

abbrev asleep : System
asleep = record init {
  phase = sleeping;
  waiting = true;
  ready = false;
  remote_queue = 5 ∷ [];
  workers = set_worker (set_worker (λ i. idle) 0 taken) 0 pushed;
}

asleep-Reach : Reach asleep
asleep-Reach =
    next
      (next
        (next
          (next (next (next (next start (take_ready refl)) (clear refl)) (arm refl))
            (check_ready refl refl))
          (check_queues refl refl))
        (swap_queued 0 refl))
      (push 0 5 refl)

wakeup_comes_example : (t : System) × Asleep asleep t × (t.signalled ≡ true)
wakeup_comes_example = wakeup_comes asleep-Reach refl (inr (λ e. cc))
