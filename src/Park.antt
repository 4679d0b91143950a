-- ===== src/Park.antt =====
-- How the executor goes to sleep while other threads wake tasks: the end of the loop of `block_on` in
-- vibeio/src/executor.rs against `BlockOnNotify::wake_by_ref` and the remote part of
-- `enqueue_if_needed` in vibeio/src/task.rs. Each atomic load, store or swap is one step, and the
-- steps of the executor and of any number of threads come in any order.
pub mod Invariant
pub mod Wakeup
mod Tests
use vibeio.Prelude.{ℕ, ◌≡◌, ◌≢◌, Bool, true, false, List, [], ◌∷◌, ◌++◌, ◌==◌, if◌then◌else◌}

-- Where another thread stands in a wake: between wakes; behind a swap of `queued` that gave false;
-- behind the push or the store of `ready`; behind a load of `waiting` that gave true; behind a swap of
-- `interrupt_pending` that gave false.
pub data Worker : Type 0 where
  idle taken pushed loaded claimed : Worker

-- Where the executor stands: it drains and polls; it has cleared `interrupt_pending`; it has set
-- `waiting`; it has found `ready` unset; it has found the queues empty, and is about to wait for
-- the driver or waits; it has cleared `waiting`.
pub data Phase : Type 0 where
  running cleared armed checked sleeping stopping : Phase

pub record System : Type 0 where
  pub phase : Phase
  pub waiting : Bool
  pub interrupt_pending : Bool
  pub ready : Bool
  pub remote_queue : List ℕ
  -- An interrupt of the driver that no wait has taken yet.
  pub signalled : Bool
  pub workers : ℕ → Worker

abbrev pub set_worker : (ℕ → Worker) → ℕ → Worker → ℕ → Worker
set_worker workers i v j = if i == j then v else workers j

pub data Step (s : System) : System → Type 0 where
  -- `enqueue_if_needed` on thread `i`: the swap of `queued`, of a task that is not queued yet, which
  -- is then pushed, and of one that is.
  swap_queued :
      (i : ℕ) → s.workers i ≡ idle → Step s (record s { workers = set_worker s.workers i taken })
  push :
      (i task : ℕ)
      → s.workers i ≡ taken
      → Step s (record s {
        remote_queue = s.remote_queue ++ task ∷ [];
        workers = set_worker s.workers i pushed;
      })
  push_again :
      (i : ℕ) → s.workers i ≡ idle → Step s (record s { workers = set_worker s.workers i pushed })
  -- `wake_by_ref` of the root future's waker.
  notify :
      (i : ℕ)
      → s.workers i ≡ idle
      → Step s (record s { ready = true; workers = set_worker s.workers i pushed })
  -- `waiting.load`, and `interrupt_pending.swap(true)` if that gave true.
  load :
      (i : ℕ)
      → s.workers i ≡ pushed
      → Step s (record s { workers = set_worker s.workers i (if s.waiting then loaded else idle) })
  swap :
      (i : ℕ)
      → s.workers i ≡ loaded
      → Step s (record s {
        interrupt_pending = true;
        workers = set_worker s.workers i (if s.interrupt_pending then idle else claimed);
      })
  interrupt :
      (i : ℕ)
      → s.workers i ≡ claimed
      → Step s (record s { signalled = true; workers = set_worker s.workers i idle })
  -- The executor takes `ready`, drains the queue, and flushes the driver, which takes an interrupt.
  take_ready : s.phase ≡ running → Step s (record s { ready = false })
  wake_root : s.phase ≡ running → Step s (record s { ready = true })
  drain : (rest : List ℕ) → s.phase ≡ running → Step s (record s { remote_queue = rest })
  flush : s.phase ≡ running → Step s (record s { signalled = false })
  -- The end of the loop, when the batch is empty.
  clear : s.phase ≡ running → Step s (record s { phase = cleared; interrupt_pending = false })
  arm : s.phase ≡ cleared → Step s (record s { phase = armed; waiting = true })
  check_ready : s.phase ≡ armed → s.ready ≡ false → Step s (record s { phase = checked })
  check_queues : s.phase ≡ checked → s.remote_queue ≡ [] → Step s (record s { phase = sleeping })
  -- A check fails.
  skip_ready :
      s.phase ≡ armed → s.ready ≡ true → Step s (record s { phase = stopping; waiting = false })
  skip_queues : s.phase ≡ checked → Step s (record s { phase = stopping; waiting = false })
  -- The wait ends, by an interrupt, by I/O or by its deadline, or the timer has woken a task.
  wait_ends :
      (left : Bool)
      → s.phase ≡ sleeping
      → Step s (record s { phase = stopping; waiting = false; signalled = left })
  stop : s.phase ≡ stopping → Step s (record s { phase = running; interrupt_pending = false })

abbrev pub init : System
init = record {
  phase = running;
  waiting = false;
  interrupt_pending = false;
  ready = true;
  remote_queue = [];
  signalled = false;
  workers = λ i. idle;
}

pub data Reach : System → Type 0 where
  start : Reach init
  next : {s t : System} → Reach s → Step s t → Reach t
