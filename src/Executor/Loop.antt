-- ===== src/Executor/Loop.antt =====
-- When the loop sleeps, and a batch size with which it does not get on.
use vibeio.Prelude.{
  ℕ, zero, suc, ◌≡◌, ◌↔◌, [], refl, ap, ◌∙◌, true, false, Option, none, inl, inr, arith, Bool-cases,
}
use vibeio.Ready.{drain, drain_ready, is_nil, should_skip_wait, stop_waiting}
use vibeio.Ready.Empty.{drain_ready-IsEmpty}
use vibeio.Executor.{
  World, Actions, retried, slept, round, run_tasks, idle, go_to_sleep, spin_timer, with_queues,
  start_waiting, stopped, block_on_rounds,
}

module _ {F G E T : Type 0} (actions : Actions F G E T) where
  -- What the loop has in hand when it has polled the root.
  abbrev pub after_spin : World F G E → World F G E
  after_spin w = (spin_timer actions w).2

  go_to_sleep_lem :
      (w : World F G E) (deadline : Option ℕ)
      → (go_to_sleep actions w).0 ≡ slept deadline
      → ((spin_timer actions w).1 ≡ false) × ((spin_timer actions w).0 ≡ deadline)
  unfolding go_to_sleep
  go_to_sleep_lem w deadline p = elim (Bool-cases (spin_timer actions w).1) [
    | inl q ↦ absurd (ground arith)
    | inr q ↦ (q, ground arith)
  ]

  idle_lem :
      (w : World F G E) (deadline : Option ℕ)
      → (idle actions w).0 ≡ slept deadline
      → (w.root_ready ≡ false)
        × (should_skip_wait w.queues ≡ false)
        × ((go_to_sleep actions (start_waiting w)).0 ≡ slept deadline)
  unfolding idle
  idle_lem w deadline p = elim (Bool-cases w.root_ready) [
    | inl q ↦ absurd (ground arith)
    | inr q ↦ elim (Bool-cases (should_skip_wait w.queues)) [
      | inl r ↦ absurd (ground arith)
      | inr r ↦ (q, r, ground arith)
    ]
  ]

  falls_asleep :
      (w : World F G E) (deadline : Option ℕ)
      → (spin_timer actions w).1 ≡ false
      → (spin_timer actions w).0 ≡ deadline
      → (go_to_sleep actions w).0 ≡ slept deadline
  unfolding go_to_sleep
  falls_asleep w deadline p q = rw (p, q) refl

  idle_sleeps :
      (w : World F G E) (deadline : Option ℕ)
      → w.root_ready ≡ false
      → should_skip_wait w.queues ≡ false
      → (go_to_sleep actions (start_waiting w)).0 ≡ slept deadline
      → (idle actions w).0 ≡ slept deadline
  unfolding idle
  idle_sleeps w deadline p q r = ground (arith, p, q, r)

  sleeps_idle :
      (batch_size : ℕ) (w : World F G E) (deadline : Option ℕ)
      → (run_tasks actions batch_size w).0 ≡ slept deadline
      → let w' = after_spin w in
        let drained = drain_ready w'.queues batch_size in
        (is_nil drained.0 ≡ true) × ((idle actions (with_queues w' drained.1)).0 ≡ slept deadline)
  unfolding run_tasks
  sleeps_idle batch_size w deadline p =
      elim (Bool-cases (is_nil (drain_ready (after_spin w).queues batch_size).0)) [
        | inr q ↦ absurd (ground arith)
        | inl q ↦ (q, ground arith)
      ]

  idle_round_sleeps :
      (batch_size : ℕ) (w : World F G E) (deadline : Option ℕ)
      → let w' = after_spin w in
        let drained = drain_ready w'.queues batch_size in
        is_nil drained.0 ≡ true
        → (idle actions (with_queues w' drained.1)).0 ≡ slept deadline
        → (run_tasks actions batch_size w).0 ≡ slept deadline
  unfolding run_tasks
  idle_round_sleeps batch_size w deadline p q = rw p q

  -- What follows the poll of the root in a round goes to sleep until the deadline if and only if,
  -- when the timer has been spun, no task stands in any of the three queues and the root has not been
  -- woken, and the timer, spun again after `waiting` has been set, wakes nothing and gives that
  -- deadline. That holds for every size of the batch, also 0, with which the batch is always empty.
  pub sleep_is_idle :
      (batch_size : ℕ) (w : World F G E) (deadline : Option ℕ)
      → let w' = after_spin w in
        let asleep = start_waiting (with_queues w' (drain_ready w'.queues batch_size).1) in
        ((run_tasks actions batch_size w).0 ≡ slept deadline) ↔ (
          (w'.queues.next_task ≡ [])
          × (w'.queues.remote_queue ≡ [])
          × (w'.queues.queue ≡ [])
          × (w'.root_ready ≡ false)
          × ((spin_timer actions asleep).1 ≡ false)
          × ((spin_timer actions asleep).0 ≡ deadline))
  sleep_is_idle batch_size w deadline =
      let w' = after_spin w in
      let left = with_queues w' (drain_ready w'.queues batch_size).1 in
      let empty_iff = drain_ready-IsEmpty w'.queues batch_size in
      (
        λ p.
            let (batch, sleeps) = sleeps_idle batch_size w deadline p in
            let (root, queues, asleep) = idle_lem left deadline sleeps in
            let (next, remote, local) = empty_iff.0 (batch, queues) in
            let (quiet, until) = go_to_sleep_lem (start_waiting left) deadline asleep in
            (next, remote, local, root, quiet, until),
        λ (next, remote, local, root, quiet, until).
            let (batch, queues) = empty_iff.1 (next, remote, local) in
            idle_round_sleeps batch_size w deadline batch (
              idle_sleeps left deadline root queues
                (falls_asleep (start_waiting left) deadline quiet until)),
      )

  -- A world in which no root is woken and a task waits.
  abbrev pub IsWaiting : World F G E → Type 0
  IsWaiting w = (w.root_ready ≡ false) × (should_skip_wait w.queues ≡ true)

  idle_waiting :
      (w : World F G E) → IsWaiting w → idle actions w ≡ (retried, stopped (start_waiting w))
  unfolding idle
  idle_waiting w (p, q) = rw (p, q) refl

  run_tasks_empty :
      (batch_size : ℕ) (w : World F G E)
      → let drained = drain_ready (after_spin w).queues batch_size in
        is_nil drained.0 ≡ true
        → run_tasks actions batch_size w ≡ idle actions (with_queues (after_spin w) drained.1)
  unfolding run_tasks
  run_tasks_empty batch_size w p = rw p refl

  after_spin_idle : (w : World F G E) → actions.has_timer ≡ false → after_spin w ≡ w
  after_spin_idle w p = rw p refl

  run_tasks_0 :
      (w : World F G E) → actions.has_timer ≡ false → run_tasks actions 0 w ≡ idle actions w
  unfolding drain_ready drain
  run_tasks_0 w p = run_tasks_empty 0 w refl ∙ ap (idle actions) (after_spin_idle w p)

  round_not_ready :
      (w : World F G E) → w.root_ready ≡ false → round actions 0 w ≡ run_tasks actions 0 w
  unfolding round
  round_not_ready w p = ground arith

  round_0 :
      (w : World F G E)
      → actions.has_timer ≡ false
      → IsWaiting w
      → round actions 0 w ≡ (retried, stopped (start_waiting w))
  round_0 w no_timer h = round_not_ready w h.0 ∙ (run_tasks_0 w no_timer ∙ idle_waiting w h)

  -- With a batch size of 0, no timer, and a task that waits, the loop polls nothing and never returns
  -- unless the root is woken: after any number of rounds the futures of the tasks are as they were.
  pub zero_batch_polls_nothing :
      (fuel : ℕ) (w : World F G E)
      → actions.has_timer ≡ false
      → IsWaiting w
      → ((block_on_rounds actions fuel 0 w).0 ≡ none)
        × ((block_on_rounds actions fuel 0 w).1.futures ≡ w.futures)
        × IsWaiting (block_on_rounds actions fuel 0 w).1
  unfolding block_on_rounds should_skip_wait stop_waiting
  zero_batch_polls_nothing zero w no_timer h = (refl, refl, h)
  zero_batch_polls_nothing (suc fuel) w no_timer h =
      let next : World F G E = stopped (start_waiting w) in
      let same = round_0 w no_timer h in
      let rest = zero_batch_polls_nothing fuel next no_timer h in
      (ground (arith, same, rest), ground (arith, same, rest), ground (arith, same, rest))
