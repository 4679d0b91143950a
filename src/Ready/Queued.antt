-- ===== src/Ready/Queued.antt =====
-- A task stands in the ready queues once if its flag `queued` is set, and not at all if it is not.
use vibeio.Prelude.{
  ℕ, ◌+◌, ◌≤◌, ◌≡◌, ap, ◌∙◌, true, false, [], ◌∷◌, ◌++◌, arith, if◌then◌else◌, take, drop,
  take-append-drop, length-drop, length, count, count-append, count-one, has-count, length-append,
}
use vibeio.Ready.Batch.{
  all_ready, drain_ready_takes, queued-drain_ready, next_task-drain_ready, alive-drain_ready,
}
use vibeio.Ready.{
  Queues, drain_ready, stop_waiting, enqueue, wake_local, wake_remote, next_task_inline_cap,
}

pub record IsConsistent (q : Queues) : Type 0 where
  pub once : (t : ℕ) → count t (all_ready q) ≡ (if q.queued t then 1 else 0)
  -- The fast path holds eight tasks at most.
  pub capped : length q.next_task ≤ next_task_inline_cap

count-all_ready :
    (t : ℕ) (q : Queues)
    → count t (all_ready q) ≡ count t q.next_task + count t q.remote_queue + count t q.queue
count-all_ready t q = omega (
  arith,
  count-append t q.next_task (q.remote_queue ++ q.queue),
  count-append t q.remote_queue q.queue,
)

-- A new task, whose flag was not set before, since it did not exist, is queued once.
pub enqueue-IsConsistent :
    (q : Queues) (task : ℕ) → IsConsistent q → q.queued task ≡ false → IsConsistent (enqueue q task)
unfolding enqueue
enqueue-IsConsistent q task h fresh = record {
  once = λ t. ground (
    arith,
    count-all_ready t q,
    count-all_ready t (enqueue q task),
    h.once t,
    count-append t q.queue (task ∷ []),
    count-one t task,
  );
  capped = h.capped;
}

pub wake_local-IsConsistent :
    (q : Queues) (task : ℕ) → IsConsistent q → q.alive ≡ true → IsConsistent (wake_local q task)
unfolding wake_local
wake_local-IsConsistent q task h live = record {
  once = λ t. ground (
    arith,
    count-all_ready t q,
    count-all_ready t (wake_local q task),
    h.once t,
    count-append t q.queue (task ∷ []),
    count-append t q.next_task (task ∷ []),
    count-one t task,
  );
  capped = ground (arith, h.capped, length-append q.next_task (task ∷ []));
}

pub wake_remote-IsConsistent :
    (q : Queues) (task : ℕ) → IsConsistent q → q.alive ≡ true → IsConsistent (wake_remote q task)
unfolding wake_remote
wake_remote-IsConsistent q task h live = record {
  once = λ t. ground (
    arith,
    count-all_ready t q,
    count-all_ready t (wake_remote q task),
    h.once t,
    count-append t q.remote_queue (task ∷ []),
    count-one t task,
  );
  capped = ground (arith, h.capped);
}

pub drain_ready-IsConsistent :
    (q : Queues) (budget : ℕ) → IsConsistent q → IsConsistent (drain_ready q budget).1
drain_ready-IsConsistent q budget h = record {
  once = λ t.
      let (batch, rest) = drain_ready_takes q budget in
      let all = all_ready q in
      ground (
        arith,
        h.once t,
        queued-drain_ready q budget t,
        ap (count t) batch,
        ap (count t) rest,
        ap (count t) (take-append-drop budget all),
        count-append t (take budget all) (drop budget all),
        has-count t (drain_ready q budget).0,
      );
  capped =
      omega (
        arith,
        h.capped,
        ap length (next_task-drain_ready q budget),
        length-drop budget q.next_task,
      );
}

-- Calls of the runtime's thread and of other threads, in any order.
pub data Step (q : Queues) : Queues → Type 0 where
  spawns : (task : ℕ) → q.queued task ≡ false → Step q (enqueue q task)
  wakes : (task : ℕ) → Step q (wake_local q task)
  wakes_remote : (task : ℕ) → Step q (wake_remote q task)
  drains : (budget : ℕ) → Step q (drain_ready q budget).1
  stops : Step q (stop_waiting q)

pub data Reach (q : Queues) : Queues → Type 0 where
  here : Reach q q
  next : {r s : Queues} → Reach q r → Step r s → Reach q s

abbrev IsRunning : Queues → Type 0
IsRunning q = IsConsistent q × (q.alive ≡ true)

Step-IsRunning : {q r : Queues} → Step q r → IsRunning q → IsRunning r
unfolding enqueue wake_local wake_remote stop_waiting
Step-IsRunning (spawns task fresh) h = (enqueue-IsConsistent _ task h.0 fresh, h.1)
Step-IsRunning (wakes task) h = (wake_local-IsConsistent _ task h.0 h.1, ground (arith, h.1))
Step-IsRunning (wakes_remote task) h =
    (wake_remote-IsConsistent _ task h.0 h.1, ground (arith, h.1))
Step-IsRunning {q} (drains budget) h =
    (drain_ready-IsConsistent q budget h.0, alive-drain_ready q budget ∙ h.1)
Step-IsRunning stops h = (record { once = h.0.once; capped = h.0.capped }, h.1)

-- From consistent queues, as long as the runtime lives, no sequence of calls queues a task twice,
-- loses one whose flag is set, or puts more than eight tasks on the fast path.
pub Reach-IsConsistent :
    {q r : Queues} → Reach q r → IsConsistent q → q.alive ≡ true → IsConsistent r × (r.alive ≡ true)
Reach-IsConsistent here h live = (h, live)
Reach-IsConsistent (next s st) h live = Step-IsRunning st (Reach-IsConsistent s h live)
