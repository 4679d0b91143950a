-- ===== src/Ready/Batch.antt =====
-- A batch is the first tasks of the three queues, one behind the other.
use mathlib.Core.List.{append_assoc, append-nil}
use vibeio.Prelude.{
  ℕ, zero, suc, ◌-◌, ◌≡◌, refl, Bool, false, List, [], ◌∷◌, ◌++◌, arith, if◌then◌else◌, take, drop,
  take-append, drop-append, length, has, has-append, has-nil,
}
use vibeio.Ready.{Queues, drain, drain_ready, set_flag}

-- The order in which the tasks are taken: woken in place, woken by other threads, spawned or overflown.
abbrev pub all_ready : Queues → List ℕ
all_ready q = q.next_task ++ (q.remote_queue ++ q.queue)

batch-drain :
    (batch : List ℕ) (budget : ℕ) (flags : ℕ → Bool) (tasks : List ℕ)
    → (drain batch budget flags tasks).batch ≡ batch ++ take budget tasks
unfolding drain
batch-drain batch zero flags tasks = simp append-nil
batch-drain batch (suc budget) flags [] = simp append-nil
batch-drain batch (suc budget) flags (task ∷ tasks) =
    rw (batch-drain (batch ++ task ∷ []) budget (set_flag flags task false) tasks)
      (append_assoc batch (task ∷ []) (take budget tasks))

budget-drain :
    (batch : List ℕ) (budget : ℕ) (flags : ℕ → Bool) (tasks : List ℕ)
    → (drain batch budget flags tasks).budget ≡ budget - length tasks
unfolding drain
budget-drain batch zero flags tasks = omega arith
budget-drain batch (suc budget) flags [] = omega arith
budget-drain batch (suc budget) flags (task ∷ tasks) =
    omega (arith, budget-drain (batch ++ task ∷ []) budget (set_flag flags task false) tasks)

rest-drain :
    (batch : List ℕ) (budget : ℕ) (flags : ℕ → Bool) (tasks : List ℕ)
    → (drain batch budget flags tasks).rest ≡ drop budget tasks
unfolding drain
rest-drain batch zero flags tasks = refl
rest-drain batch (suc budget) flags [] = refl
rest-drain batch (suc budget) flags (task ∷ tasks) =
    rest-drain (batch ++ task ∷ []) budget (set_flag flags task false) tasks

flags-drain :
    (batch : List ℕ) (budget : ℕ) (flags : ℕ → Bool) (tasks : List ℕ) (t : ℕ)
    → (drain batch budget flags tasks).flags t
      ≡ (if has t (take budget tasks) then false else flags t)
unfolding drain has
flags-drain batch zero flags tasks t = refl
flags-drain batch (suc budget) flags [] t = refl
flags-drain batch (suc budget) flags (task ∷ tasks) t =
    ground (arith, flags-drain (batch ++ task ∷ []) budget (set_flag flags task false) tasks t)

-- `drain_ready` takes the first tasks, as many as the budget allows, in the order of the queues, and
-- leaves the others in their order.
pub drain_ready_takes :
    (q : Queues) (budget : ℕ)
    → ((drain_ready q budget).0 ≡ take budget (all_ready q))
      × (all_ready (drain_ready q budget).1 ≡ drop budget (all_ready q))
unfolding drain_ready
drain_ready_takes q budget = (
  simp (batch-drain, budget-drain, take-append, append_assoc),
  simp (rest-drain, budget-drain, drop-append),
)

-- The tasks of the batch may be woken again, and all others keep their flag.
pub queued-drain_ready :
    (q : Queues) (budget t : ℕ)
    → (drain_ready q budget).1.queued t
      ≡ (if has t (drain_ready q budget).0 then false else q.queued t)
unfolding drain_ready
queued-drain_ready q budget t = simp (batch-drain, flags-drain, has-append, has-nil) (ground arith)

pub next_task-drain_ready :
    (q : Queues) (budget : ℕ) → (drain_ready q budget).1.next_task ≡ drop budget q.next_task
unfolding drain_ready
next_task-drain_ready q budget = rest-drain [] budget q.queued q.next_task

pub alive-drain_ready : (q : Queues) (budget : ℕ) → (drain_ready q budget).1.alive ≡ q.alive
unfolding drain_ready
alive-drain_ready q budget = refl
