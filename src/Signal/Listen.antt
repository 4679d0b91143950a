-- ===== src/Signal/Listen.antt =====
-- A listener's `poll_recv` against `dispatch_signal` on the dispatch thread. Each load of the counter,
-- each change of it and each use of the lock on the wakers is one step.
use vibeio.Prelude.{
  ℕ, ◌+◌, ◌%◌, ◌^◌, ◌<◌, ◌≡◌, ◌≢◌, refl, Bool, true, false, List, [], ◌∷◌, ◌++◌, arith, has,
  has-append, has-nil, ◌==◌, ◌||◌,
}
use vibeio.Signal.{SignalState, register_waker, count_signal, take_wakers}

-- The listener is not being polled; it has found the counter at `last_seen`; it has registered its
-- waker, and its task sleeps.
pub data Phase : Type 0 where
  outside loaded sleeping : Phase

pub record Race : Type 0 where
  pub state : SignalState
  pub last_seen : ℕ
  pub phase : Phase
  -- The dispatch thread has counted a signal and has not yet taken the wakers.
  pub dispatching : Bool
  -- The wakers that have been woken since the listener was polled last.
  pub woken : List ℕ

module _ (waker : ℕ) where
  pub data Step (s : Race) : Race → Type 0 where
    -- `poll_recv` that is ready.
    receive :
        s.phase ≡ outside
        → s.state.counter ≢ s.last_seen
        → Step s (record s { last_seen = s.state.counter })
    -- The two halves of a `poll_recv` that is pending.
    load : s.phase ≡ outside → s.state.counter ≡ s.last_seen → Step s (record s { phase = loaded })
    register :
        s.phase ≡ loaded
        → Step s (record s {
          phase = sleeping;
          state = record s.state { wakers = register_waker s.state.wakers waker };
        })
    -- The two halves of `dispatch_signal`.
    count :
        s.dispatching ≡ false
        → Step s (record s { state = count_signal s.state; dispatching = true })
    take :
        s.dispatching ≡ true
        → Step s (record s {
          state = (take_wakers s.state).1;
          dispatching = false;
          woken = s.woken ++ (take_wakers s.state).0;
        })
    -- Another listener registers its waker.
    other :
        (w : ℕ)
        → Step s (record s { state = record s.state { wakers = register_waker s.state.wakers w } })
    -- The task is polled again, by its own waker or for another reason.
    poll_again : s.phase ≡ sleeping → Step s (record s { phase = outside; woken = [] })

  pub data Reach : Race → Type 0 where
    start :
        (s : Race)
        → s.phase ≡ outside
        → s.state.counter ≡ s.last_seen
        → s.dispatching ≡ false
        → s.woken ≡ []
        → Reach s
    next : {s t : Race} → Reach s → Step s t → Reach t

  -- A task that sleeps is woken by the next dispatch, or has been woken.
  pub IsServed : Race → Type 0
  IsServed s = s.phase ≡ sleeping → (has waker s.state.wakers || has waker s.woken) ≡ true

  has-register_waker : (ws : List ℕ) (w j : ℕ) → has j (register_waker ws w) ≡ (w == j || has j ws)
  unfolding has register_waker
  has-register_waker [] w j = refl
  has-register_waker (existing ∷ ws) w j = ground (arith, has-register_waker ws w j)

  step-IsServed : {s t : Race} → Step s t → IsServed s → IsServed t
  unfolding IsServed
  step-IsServed {s} (receive p q) h r = absurd (ground arith)
  step-IsServed {s} (load p q) h r = absurd (ground arith)
  step-IsServed {s} (register p) h r = ground (arith, has-register_waker s.state.wakers waker waker)
  step-IsServed {s} (count p) h r = h r
  step-IsServed {s} (take p) h r =
      ground (arith, h r, has-append waker s.woken s.state.wakers, has-nil waker)
  step-IsServed {s} (other w) h r = ground (arith, h r, has-register_waker s.state.wakers w waker)
  step-IsServed {s} (poll_again p) h r = absurd (ground arith)

  -- In every interleaving, a listener whose task sleeps has its waker among those that the next
  -- dispatch takes, or it has been woken.
  pub Reach-IsServed : {s : Race} → Reach s → IsServed s
  unfolding IsServed
  Reach-IsServed (start s p q r t) h = absurd (ground arith)
  Reach-IsServed (next reach step) h = step-IsServed step (Reach-IsServed reach) h

  -- Some interleaving leaves the listener asleep behind a signal that it has not seen, with no
  -- dispatch under way and its waker not woken: when the signal is counted and the wakers are taken
  -- between the listener's load of the counter and its registration.
  pub signal_can_be_missed :
      (counter : ℕ)
      → counter < 2 ^ 64
      → (s : Race) × Reach s
        × (s.phase ≡ sleeping)
        × (s.dispatching ≡ false)
        × (has waker s.woken ≡ false)
        × (s.state.counter ≢ s.last_seen)
  unfolding register_waker
  signal_can_be_missed counter h = (
    record {
      state = record { counter = (counter + 1) % 2 ^ 64; wakers = waker ∷ [] };
      last_seen = counter;
      phase = sleeping;
      dispatching = false;
      woken = [];
    },
    next
        (next
          (next
            (next
              (start
                (record {
                  state = record { counter = counter; wakers = [] };
                  last_seen = counter;
                  phase = outside;
                  dispatching = false;
                  woken = [];
                })
                refl refl refl refl)
              (load refl refl))
            (count refl))
          (take refl))
        (register refl),
    refl,
    refl,
    has-nil waker,
    λ p. omega arith,
  )
