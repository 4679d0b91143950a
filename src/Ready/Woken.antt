-- ===== src/Ready/Woken.antt =====
-- A wake is not lost, and a task is not queued twice.
use vibeio.Prelude.{
  ℕ, ◌+◌, ◌≤◌, ◌<◌, ◌≡◌, true, [], ◌∷◌, ◌++◌, arith, take_all, length, has, has-count,
  length-append,
}
use vibeio.Ready.Batch.{all_ready, drain_ready_takes}
use vibeio.Ready.Queued.{IsConsistent, wake_local-IsConsistent, wake_remote-IsConsistent}
use vibeio.Ready.{Queues, drain_ready, wake_local, wake_remote}

queued_is_ready :
    (q : Queues) (task : ℕ) → IsConsistent q → q.queued task ≡ true → has task (all_ready q) ≡ true
queued_is_ready q task h p = ground (arith, h.once task, has-count task (all_ready q))

drains_all :
    (q : Queues) (task budget : ℕ)
    → IsConsistent q
    → q.queued task ≡ true
    → length (all_ready q) ≤ budget
    → has task (drain_ready q budget).0 ≡ true
drains_all q task budget h p room =
    rw ((drain_ready_takes q budget).0, take_all budget (all_ready q) room)
      (queued_is_ready q task h p)

length-all_ready :
    (q : Queues)
    → length (all_ready q) ≡ length q.next_task + length q.remote_queue + length q.queue
length-all_ready q = omega (
  arith,
  length-append q.next_task (q.remote_queue ++ q.queue),
  length-append q.remote_queue q.queue,
)

woken-local :
    (q : Queues) (task : ℕ)
    → ((wake_local q task).queued task ≡ true)
      × (length (all_ready (wake_local q task)) ≤ length (all_ready q) + 1)
unfolding wake_local
woken-local q task = (
  ground arith,
  ground (
    arith,
    length-all_ready q,
    length-all_ready (wake_local q task),
    length-append q.next_task (task ∷ []),
    length-append q.queue (task ∷ []),
  ),
)

woken-remote :
    (q : Queues) (task : ℕ)
    → ((wake_remote q task).queued task ≡ true)
      × (length (all_ready (wake_remote q task)) ≤ length (all_ready q) + 1)
unfolding wake_remote
woken-remote q task = (
  ground arith,
  ground (
    arith,
    length-all_ready q,
    length-all_ready (wake_remote q task),
    length-append q.remote_queue (task ∷ []),
  ),
)

-- A wake is not lost, from whatever thread it comes: after it, in consistent queues of a living
-- runtime, the task is in the next batch whose budget is larger than the number of ready tasks.
pub woken_is_drained :
    (q : Queues) (task budget : ℕ)
    → IsConsistent q
    → q.alive ≡ true
    → length (all_ready q) < budget
    → (has task (drain_ready (wake_local q task) budget).0 ≡ true)
      × (has task (drain_ready (wake_remote q task) budget).0 ≡ true)
woken_is_drained q task budget h live room =
    let (set, few) = woken-local q task in
    let (set', few') = woken-remote q task in
    (
      drains_all (wake_local q task) task budget (wake_local-IsConsistent q task h live) set
          (omega arith),
      drains_all (wake_remote q task) task budget (wake_remote-IsConsistent q task h live) set'
          (omega arith),
    )
