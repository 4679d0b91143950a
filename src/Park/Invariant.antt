-- ===== src/Park/Invariant.antt =====
-- No wake is lost while the executor goes to sleep.
use vibeio.Prelude.{
  ℕ, ◌≡◌, ◌≢◌, ◌⊎◌, inl, inr, refl, Bool, true, false, List, [], ◌∷◌, ◌++◌, ◌==◌, if◌then◌else◌,
  arith, Bool-cases, ==_iff, ap, ◌∙◌,
}
use vibeio.Park.{
  System, Worker, Phase, idle, taken, pushed, loaded, claimed, running, cleared, armed, checked,
  sleeping, stopping, Step, Reach, start, next, init, set_worker, swap_queued, push, push_again,
  notify, load, swap, interrupt, take_ready, wake_root, drain, flush, clear, arm, check_ready,
  check_queues, skip_ready, skip_queues, wait_ends, stop,
}

abbrev pub is_waiting : Phase → Bool
is_waiting running = false
is_waiting cleared = false
is_waiting armed = true
is_waiting checked = true
is_waiting sleeping = true
is_waiting stopping = false

-- An interrupt is there, or a thread is about to make it.
abbrev pub IsClaimed : Bool → (ℕ → Worker) → Type 0
IsClaimed signalled workers = (signalled ≡ true) ⊎ ((i : ℕ) × (workers i ≡ claimed))

-- An interrupt is there, or a thread is within a wake.
abbrev pub IsActive : Bool → (ℕ → Worker) → Type 0
IsActive signalled workers = (signalled ≡ true) ⊎ ((i : ℕ) × (workers i ≢ idle))

abbrev pub is_past_clear : Phase → Bool
is_past_clear running = false
is_past_clear stopping = false
is_past_clear _ = true

pub record Inv (s : System) : Type 0 where
  pub waits : s.waiting ≡ is_waiting s.phase
  pub claim :
      is_past_clear s.phase ≡ true → s.interrupt_pending ≡ true → IsClaimed s.signalled s.workers
  pub wake_checked : s.phase ≡ checked → s.ready ≡ true → IsActive s.signalled s.workers
  pub wake_root : s.phase ≡ sleeping → s.ready ≡ true → IsActive s.signalled s.workers
  pub wake_task : s.phase ≡ sleeping → s.remote_queue ≢ [] → IsActive s.signalled s.workers

module _ (b : Bool) (ws : ℕ → Worker) (i : ℕ) where
  -- A claim outlives a move of a thread that has none.
  claim_stays : (v : Worker) → ws i ≢ claimed → IsClaimed b ws → IsClaimed b (set_worker ws i v)
  claim_stays v h (inl p) = inl p
  claim_stays v h (inr (j, p)) = elim (Bool-cases (i == j)) [
    | inl e ↦ absurd (h (ground (arith, p)))
    | inr e ↦ inr (j, rw e p)
  ]

  busy-IsActive : (v : Worker) → v ≢ idle → IsActive b (set_worker ws i v)
  busy-IsActive v h = inr (i, rw ((==_iff i i).1 refl) h)

  claim-IsActive : IsClaimed b ws → IsActive b ws
  claim-IsActive (inl p) = inl p
  claim-IsActive (inr (j, p)) = inr (j, λ q. cc (p, q))

-- A thread that begins a wake or pushes, whatever it has written.
begin-Inv :
    (s : System) (i : ℕ) (ready : Bool) (tasks : List ℕ) (v : Worker)
    → v ≢ idle
    → s.workers i ≢ claimed
    → Inv s
    → Inv (record s { ready = ready; remote_queue = tasks; workers = set_worker s.workers i v })
begin-Inv s i ready tasks v b p h = record {
  waits = h.waits;
  claim = λ q r. claim_stays s.signalled s.workers i v p (h.claim q r);
  wake_checked = λ q r. active;
  wake_root = λ q r. active;
  wake_task = λ q r. active;
}
  where
    active : IsActive s.signalled (set_worker s.workers i v)
    active = busy-IsActive s.signalled s.workers i v b

-- A step of the executor while it runs.
running-Inv :
    (s : System) (ready signalled : Bool) (tasks : List ℕ)
    → s.phase ≡ running
    → Inv s
    → Inv (record s { ready = ready; remote_queue = tasks; signalled = signalled })
running-Inv s ready signalled tasks p h = record {
  waits = h.waits;
  claim = λ q r. cc (ap is_past_clear p, q);
  wake_checked = λ q r. cc (p, q);
  wake_root = λ q r. cc (p, q);
  wake_task = λ q r. absurd (awake q);
}
  where
    awake : s.phase ≡ sleeping → ⊥
    awake q = cc (p, q)

-- A step to a phase in which the executor neither sleeps nor is about to.
awake-Inv :
    (s : System) (phase : Phase) (waiting pending signalled : Bool)
    → waiting ≡ is_waiting phase
    → phase ≢ checked
    → phase ≢ sleeping
    → (is_past_clear phase ≡ true → pending ≡ true → IsClaimed signalled s.workers)
    → Inv (record s {
      phase = phase;
      waiting = waiting;
      interrupt_pending = pending;
      signalled = signalled;
    })
awake-Inv s phase waiting pending signalled w c a h = record {
  waits = w;
  claim = h;
  wake_checked = λ q r. absurd (c q);
  wake_root = λ q r. absurd (a q);
  wake_task = λ q r. absurd (a q);
}

pub Step-Inv : {s t : System} → Step s t → Inv s → Inv t
Step-Inv {s} (swap_queued i p) h =
    begin-Inv s i s.ready s.remote_queue taken (λ c. cc) (λ c. cc (p, c)) h
Step-Inv {s} (push i task p) h =
    begin-Inv s i s.ready (s.remote_queue ++ task ∷ []) pushed (λ c. cc) (λ c. cc (p, c)) h
Step-Inv {s} (push_again i p) h =
    begin-Inv s i s.ready s.remote_queue pushed (λ c. cc) (λ c. cc (p, c)) h
Step-Inv {s} (notify i p) h = begin-Inv s i true s.remote_queue pushed (λ c. cc) (λ c. cc (p, c)) h
Step-Inv {s} (load i p) h = record {
  waits = h.waits;
  claim = λ q r. claim_stays s.signalled s.workers i _ (λ c. cc (p, c)) (h.claim q r);
  wake_checked = λ q r. stays (h.waits ∙ ap is_waiting q);
  wake_root = λ q r. stays (h.waits ∙ ap is_waiting q);
  wake_task = λ q r. stays (h.waits ∙ ap is_waiting q);
}
  where
    stays :
        s.waiting ≡ true
        → IsActive s.signalled (set_worker s.workers i (if s.waiting then loaded else idle))
    stays w = rw w (busy-IsActive s.signalled s.workers i loaded (λ c. cc))
Step-Inv {s} (swap i p) h = record {
  waits = h.waits;
  claim = λ q r. claims q;
  wake_checked = λ q r. claim-IsActive s.signalled _ i (claims (ap is_past_clear q));
  wake_root = λ q r. claim-IsActive s.signalled _ i (claims (ap is_past_clear q));
  wake_task = λ q r. claim-IsActive s.signalled _ i (claims (ap is_past_clear q));
}
  where
    claims :
        is_past_clear s.phase ≡ true
        → IsClaimed s.signalled
            (set_worker s.workers i (if s.interrupt_pending then idle else claimed))
    claims q = elim (Bool-cases s.interrupt_pending) [
      | inl e ↦ rw e (claim_stays s.signalled s.workers i idle (λ c. cc (p, c)) (h.claim q e))
      | inr e ↦ rw e (inr (i, rw ((==_iff i i).1 refl) refl))
    ]
Step-Inv {s} (interrupt i p) h = record {
  waits = h.waits;
  claim = λ q r. inl refl;
  wake_checked = λ q r. inl refl;
  wake_root = λ q r. inl refl;
  wake_task = λ q r. inl refl;
}
Step-Inv {s} (take_ready p) h = running-Inv s false s.signalled s.remote_queue p h
Step-Inv {s} (wake_root p) h = running-Inv s true s.signalled s.remote_queue p h
Step-Inv {s} (drain rest p) h = running-Inv s s.ready s.signalled rest p h
Step-Inv {s} (flush p) h = running-Inv s s.ready false s.remote_queue p h
Step-Inv {s} (clear p) h =
    awake-Inv s cleared s.waiting false s.signalled (h.waits ∙ ap is_waiting p) (λ c. cc) (λ c. cc)
      (λ q r. cc)
Step-Inv {s} (arm p) h =
    awake-Inv s armed true s.interrupt_pending s.signalled refl (λ c. cc) (λ c. cc)
      (λ q. h.claim (ap is_past_clear p))
Step-Inv {s} (check_ready p r) h = record {
  waits = h.waits ∙ ap is_waiting p;
  claim = λ q. h.claim (ap is_past_clear p);
  wake_checked = λ q u. cc (r, u);
  wake_root = λ q u. cc (r, u);
  wake_task = λ q u. absurd (not_asleep q);
}
  where
    not_asleep : checked ≡ sleeping → ⊥
    not_asleep q = cc
Step-Inv {s} (check_queues p r) h = record {
  waits = h.waits ∙ ap is_waiting p;
  claim = λ q. h.claim (ap is_past_clear p);
  wake_checked = λ q u. h.wake_checked p u;
  wake_root = λ q u. h.wake_checked p u;
  wake_task = λ q u. absurd (u r);
}
Step-Inv {s} (skip_ready p r) h =
    awake-Inv s stopping false s.interrupt_pending s.signalled refl (λ c. cc) (λ c. cc) (λ q. cc)
Step-Inv {s} (skip_queues p) h =
    awake-Inv s stopping false s.interrupt_pending s.signalled refl (λ c. cc) (λ c. cc) (λ q. cc)
Step-Inv {s} (wait_ends left p) h =
    awake-Inv s stopping false s.interrupt_pending left refl (λ c. cc) (λ c. cc) (λ q. cc)
Step-Inv {s} (stop p) h =
    awake-Inv s running s.waiting false s.signalled (h.waits ∙ ap is_waiting p) (λ c. cc) (λ c. cc)
      (λ q. cc)

init-Inv : Inv init
init-Inv = awake-Inv init running false false false refl (λ c. cc) (λ c. cc) (λ q. cc)

pub Reach-Inv : {s : System} → Reach s → Inv s
Reach-Inv start = init-Inv
Reach-Inv (next r st) = Step-Inv st (Reach-Inv r)

-- While the executor sleeps with a task in the remote queue or the root future's flag set, an interrupt
-- of the driver is there, or a thread is within a wake.
pub asleep_with_work_is_active :
    {s : System}
    → Reach s
    → s.phase ≡ sleeping
    → (s.ready ≡ true) ⊎ (s.remote_queue ≢ [])
    → (s.signalled ≡ true) ⊎ ((i : ℕ) × (s.workers i ≢ idle))
asleep_with_work_is_active r p (inl q) = (Reach-Inv r).wake_root p q
asleep_with_work_is_active r p (inr q) = (Reach-Inv r).wake_task p q
