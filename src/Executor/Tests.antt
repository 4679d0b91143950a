-- ===== src/Executor/Tests.antt =====
-- Two tasks, each of which is done at its first poll, and a root future that waits. `rest` is the log
-- of the tasks that were polled.
use vibeio.Prelude.{ℕ, ◌≡◌, ◌↔◌, refl, true, false, none, List, [], ◌∷◌, ◌++◌, has}
use vibeio.Join.{ready, pending}
use vibeio.Ready.{drain_ready, should_skip_wait}
use vibeio.Executor.{
  World, Actions, slept, run_tasks, block_on_rounds, poll_batch, with_queues, start_waiting,
  spawn_detached, spin_timer,
}
use vibeio.Executor.Loop.{IsWaiting, sleep_is_idle, zero_batch_polls_nothing}
use vibeio.Executor.Batches.{IsDistinct, IsLogged, live, batch_polls_each_once}

abbrev Small : Type 0
Small = World ℕ (Unit {0}) (List ℕ)

abbrev actions : Actions ℕ (Unit {0}) (List ℕ) ℕ
actions = record {
  poll_root = λ w. (pending, w);
  poll_future = λ task future w. (ready tt, future, record w { rest = w.rest ++ task ∷ [] });
  has_timer = false;
  spin = λ w. (none, false, w);
  wait = λ deadline w. w;
  should_flush = false;
  flush = λ w. w;
}

abbrev idle_world : Small
idle_world = record {
  queues = record {
    alive = true;
    next_task = [];
    remote_queue = [];
    queue = [];
    queued = λ t. false;
    waiting = false;
    interrupt_pending = false;
    interrupts = 0;
  };
  futures = λ t. none;
  root_ready = false;
  root = tt;
  rest = [];
}

abbrev busy : Small
busy = spawn_detached (spawn_detached idle_world 1 10) 2 20

-- With a batch size of 0 too.
sleep_is_idle_example :
    let asleep = start_waiting (with_queues idle_world (drain_ready idle_world.queues 0).1) in
    ((run_tasks actions 0 idle_world).0 ≡ slept none) ↔ (
      (idle_world.queues.next_task ≡ [])
      × (idle_world.queues.remote_queue ≡ [])
      × (idle_world.queues.queue ≡ [])
      × (idle_world.root_ready ≡ false)
      × ((spin_timer actions asleep).1 ≡ false)
      × ((spin_timer actions asleep).0 ≡ none))
sleep_is_idle_example = sleep_is_idle actions 0 idle_world none

-- So it sleeps.
idle_world_sleeps : (run_tasks actions 0 idle_world).0 ≡ slept none
idle_world_sleeps = sleep_is_idle_example.1 (refl, refl, refl, refl, refl, refl)

IsWaiting-busy : IsWaiting actions busy
unfolding spawn_detached should_skip_wait
IsWaiting-busy = (refl, refl)

zero_batch_polls_nothing_run :
    ((block_on_rounds actions 3 0 busy).0 ≡ none)
    × ((block_on_rounds actions 3 0 busy).1.futures ≡ busy.futures)
    × IsWaiting actions (block_on_rounds actions 3 0 busy).1
zero_batch_polls_nothing_run = zero_batch_polls_nothing actions 3 busy refl IsWaiting-busy

IsLogged-actions : IsLogged actions (λ log. log) (1 ∷ 2 ∷ 3 ∷ [])
IsLogged-actions task future w = (refl, λ t p. refl)

IsDistinct-tasks : IsDistinct (1 ∷ 2 ∷ 3 ∷ [])
unfolding IsDistinct has
IsDistinct-tasks = (refl, (refl, (refl, tt)))

batch_polls_each_once_example :
    (poll_batch actions busy (1 ∷ 2 ∷ 3 ∷ [])).rest
    ≡ busy.rest ++ live busy.futures (1 ∷ 2 ∷ 3 ∷ [])
batch_polls_each_once_example =
    batch_polls_each_once actions (λ log. log) busy (1 ∷ 2 ∷ 3 ∷ []) IsLogged-actions
      IsDistinct-tasks

-- The task 3 has no future.
polled_two : (poll_batch actions busy (1 ∷ 2 ∷ 3 ∷ [])).rest ≡ 1 ∷ 2 ∷ []
unfolding poll_batch spawn_detached
polled_two = refl
