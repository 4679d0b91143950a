-- ===== src/Executor.antt =====
-- `Runtime::block_on` of vibeio/src/executor.rs: the loop that polls the root future and the tasks,
-- and the current runtime of a thread. What the loop calls is the interface `Actions`: each call may
-- wake tasks and spawn new ones, so it is given the whole state.
pub mod Loop
pub mod Batches
mod Tests
use vibeio.Prelude.{
  ℕ, zero, suc, Bool, true, false, Option, none, some, List, [], ◌∷◌, ◌++◌, ◌==◌, ◌||◌,
  if◌then◌else◌,
}
use vibeio.Join.{Poll, ready, pending}
use vibeio.Ready.{Queues, enqueue, drain_ready, is_nil, should_skip_wait, stop_waiting}

-- `futures` is `Task::future` of each task, `root_ready` the flag of `BlockOnNotify`, `root` the root
-- future, and `rest` the timer, the driver and whatever the futures share.
pub record World (F G E : Type 0) : Type 0 where
  pub queues : Queues
  pub futures : ℕ → Option F
  pub root_ready : Bool
  pub root : G
  pub rest : E

-- The calls of the loop: the polls of the root and of the future of a task, the timer, which gives the
-- next deadline and whether it woke anything, the driver, and whether it is to be flushed.
pub record Actions (F G E T : Type 0) : Type 0 where
  pub poll_root : World F G E → Poll T × World F G E
  pub poll_future : ℕ → F → World F G E → Poll (Unit {0}) × F × World F G E
  pub has_timer : Bool
  pub spin : World F G E → Option ℕ × Bool × World F G E
  pub wait : Option ℕ → World F G E → World F G E
  pub should_flush : Bool
  pub flush : World F G E → World F G E

abbrev pub set_future : {F : Type 0} → (ℕ → Option F) → ℕ → Option F → ℕ → Option F
set_future futures task slot t = if t == task then slot else futures t

-- What a round of the loop did.
pub data Round (T : Type 0) : Type 0 where
  returned : T → Round T
  retried : Round T
  slept : Option ℕ → Round T
  polled : List ℕ → Round T

module _ {F G E : Type 0} where
  abbrev pub with_queues : World F G E → Queues → World F G E
  with_queues w queues = record w { queues = queues }

  -- The stores before the loop goes to sleep.
  abbrev pub start_waiting : World F G E → World F G E
  start_waiting w = with_queues w (record w.queues { interrupt_pending = false; waiting = true })

  abbrev pub stopped : World F G E → World F G E
  stopped w = with_queues w (stop_waiting w.queues)

  -- `spawn_detached`, of a task that has no number yet.
  unfoldable pub spawn_detached : World F G E → ℕ → F → World F G E
  unfolding enqueue
  spawn_detached w task future = record w {
    queues = enqueue w.queues task;
    futures = set_future w.futures task (some future);
  }

module _ {F G E T : Type 0} (actions : Actions F G E T) where
  -- One task of the batch. The slot is empty while its future is polled.
  unfoldable pub poll_one : World F G E → ℕ → World F G E
  poll_one w task = elim (w.futures task) [
    | none ↦ w
    | some future ↦
        let taken : World F G E = record w { futures = set_future w.futures task none } in
        let result = actions.poll_future task future taken in
        elim result.0 [
          | ready _ ↦ result.2
          | pending ↦ record result.2 { futures = set_future result.2.futures task (some result.1) }
        ]
  ]

  unfoldable pub poll_batch : World F G E → List ℕ → World F G E
  unfolding poll_one
  poll_batch w [] = w
  poll_batch w (task ∷ tasks) = poll_batch (poll_one w task) tasks

  abbrev pub spin_timer : World F G E → Option ℕ × Bool × World F G E
  spin_timer w = if actions.has_timer then actions.spin w else (none, false, w)

  -- The last look at the timer, and the driver's wait.
  unfoldable pub go_to_sleep : World F G E → Round T × World F G E
  unfolding stop_waiting
  go_to_sleep w =
      let spun = spin_timer w in
      if spun.1
      then (retried, stopped spun.2)
      else (slept spun.0, stopped (actions.wait spun.0 spun.2))

  -- Where the batch is empty.
  unfoldable pub idle : World F G E → Round T × World F G E
  unfolding go_to_sleep stop_waiting should_skip_wait
  idle w =
      if w.root_ready
      then (retried, w)
      else if w.root_ready || should_skip_wait w.queues
      then (retried, stopped (start_waiting w))
      else go_to_sleep (start_waiting w)

  -- What follows the poll of the root.
  unfoldable pub run_tasks : ℕ → World F G E → Round T × World F G E
  unfolding drain_ready poll_batch idle
  run_tasks batch_size w =
      let spun = (spin_timer w).2 in
      let drained = drain_ready spun.queues batch_size in
      let drained_world = with_queues spun drained.1 in
      if is_nil drained.0
      then idle drained_world
      else (let done = poll_batch drained_world drained.0 in
          (polled drained.0, if actions.should_flush then actions.flush done else done))

  unfoldable pub round : ℕ → World F G E → Round T × World F G E
  unfolding run_tasks
  round batch_size w =
      let after = record w { root_ready = false } in
      if w.root_ready
      then (let root = actions.poll_root after in
          elim root.0 [
            | ready output ↦ (returned output, root.1)
            | pending ↦ run_tasks batch_size root.1
          ])
      else run_tasks batch_size w

  -- The loop, which only the root future ends: the output, or nothing when the fuel is used up.
  unfoldable pub block_on_rounds : ℕ → ℕ → World F G E → Option T × World F G E
  unfolding round
  block_on_rounds zero batch_size w = (none, w)
  block_on_rounds (suc fuel) batch_size w =
      let next = round batch_size w in
      elim next.0 [
        | returned output ↦ (some output, next.1)
        | retried ↦ block_on_rounds fuel batch_size next.1
        | slept _ ↦ block_on_rounds fuel batch_size next.1
        | polled _ ↦ block_on_rounds fuel batch_size next.1
      ]
