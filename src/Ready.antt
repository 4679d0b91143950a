-- ===== src/Ready.antt =====
-- The ready queues of vibeio/src/task.rs and vibeio/src/executor.rs: waking a task, and draining the
-- queues into a batch. A task is known by a number. Its flag `queued` stands in the map of the flags,
-- and its weak references to the queues are good as long as the runtime is `alive`.
pub mod Batch
pub mod Empty
pub mod Queued
pub mod Woken
mod Tests
use vibeio.Prelude.{
  ℕ, zero, suc, ◌-◌, Bool, true, false, not, List, [], ◌∷◌, ◌++◌, length, ltb, ◌==◌, ◌&&◌, ◌||◌,
  if◌then◌else◌,
}

abbrev pub next_task_inline_cap : ℕ
next_task_inline_cap = 8

pub record Queues : Type 0 where
  pub alive : Bool
  pub next_task : List ℕ
  pub remote_queue : List ℕ
  pub queue : List ℕ
  pub queued : ℕ → Bool
  pub waiting : Bool
  pub interrupt_pending : Bool
  -- How often the driver's interruptor has been called.
  pub interrupts : ℕ

abbrev pub set_flag : (ℕ → Bool) → ℕ → Bool → ℕ → Bool
set_flag flags task value t = if t == task then value else flags t

-- `RuntimeInner::enqueue` of a task that `spawn` or `spawn_detached` has just made, with its flag set.
unfoldable pub enqueue : Queues → ℕ → Queues
enqueue q task = record q { queue = q.queue ++ task ∷ []; queued = set_flag q.queued task true }

-- `enqueue_if_needed` on the runtime's thread.
pub wake_local : Queues → ℕ → Queues
wake_local q task =
    if q.queued task
    then q
    else if not q.alive
    then record q { queued = set_flag q.queued task true }
    else if ltb (length q.next_task) next_task_inline_cap
    then record q { next_task = q.next_task ++ task ∷ []; queued = set_flag q.queued task true }
    else record q { queue = q.queue ++ task ∷ []; queued = set_flag q.queued task true }

-- The call of the interruptor, behind the tests of the two flags.
pub interrupt_if_waiting : Queues → Queues
interrupt_if_waiting q =
    if q.waiting && not q.interrupt_pending
    then record q { interrupt_pending = true; interrupts = suc q.interrupts }
    else q

-- `enqueue_if_needed` on any other thread.
pub wake_remote : Queues → ℕ → Queues
unfolding interrupt_if_waiting
wake_remote q task = interrupt_if_waiting (
    if q.queued task
    then q
    else if q.alive
    then record q {
      remote_queue = q.remote_queue ++ task ∷ [];
      queued = set_flag q.queued task true;
    }
    else record q { queued = set_flag q.queued task true })

-- One of the loops of `drain_ready`: what it adds to the batch, the budget that is left, what is left
-- of the queue, and the flags.
pub record Taken : Type 0 where
  pub batch : List ℕ
  pub budget : ℕ
  pub rest : List ℕ
  pub flags : ℕ → Bool

unfoldable pub drain : List ℕ → ℕ → (ℕ → Bool) → List ℕ → Taken
drain batch zero flags tasks = record { batch = batch; budget = 0; rest = tasks; flags = flags }
drain batch (suc budget) flags [] = record {
  batch = batch;
  budget = suc budget;
  rest = [];
  flags = flags;
}
drain batch (suc budget) flags (task ∷ tasks) =
    drain (batch ++ task ∷ []) budget (set_flag flags task false) tasks

-- `drain_ready` into an empty batch.
unfoldable pub drain_ready : Queues → ℕ → List ℕ × Queues
drain_ready q budget =
    let next = drain [] budget q.queued q.next_task in
    let remote = drain next.batch next.budget next.flags q.remote_queue in
    let local = drain remote.batch remote.budget remote.flags q.queue in
    (
      local.batch,
      record q {
        next_task = next.rest;
        remote_queue = remote.rest;
        queue = local.rest;
        queued = local.flags;
      },
    )

abbrev pub is_nil : List ℕ → Bool
is_nil [] = true
is_nil (x ∷ xs) = false

unfoldable pub should_skip_wait : Queues → Bool
should_skip_wait q =
    if not (is_nil q.next_task) || not (is_nil q.remote_queue) then true else not (is_nil q.queue)

unfoldable pub stop_waiting : Queues → Queues
stop_waiting q = record q { waiting = false; interrupt_pending = false }
