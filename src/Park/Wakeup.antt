-- ===== src/Park/Wakeup.antt =====
-- A sleeping executor with something to do is interrupted once the threads go on.
use vibeio.Prelude.{ℕ, ◌≡◌, ◌≢◌, ◌⊎◌, inl, inr, refl, Bool, true, false, [], Bool-cases, ==_iff}
use vibeio.Park.Invariant.{Inv, Reach-Inv, Step-Inv, IsClaimed, asleep_with_work_is_active}
use vibeio.Park.{
  System, Worker, idle, taken, pushed, loaded, claimed, sleeping, Step, Reach, push, load, swap,
  interrupt,
}

-- Whether a step only carries on a wake that a thread has begun.
abbrev pub continues : {s t : System} → Step s t → Bool
continues (push i task p) = true
continues (load i p) = true
continues (swap i p) = true
continues (interrupt i p) = true
continues _ = false

-- A row of steps in which the executor stays asleep and no thread begins a wake.
pub data Asleep (s : System) : System → Type 0 where
  here : s.phase ≡ sleeping → Asleep s s
  next :
      {t u : System}
      → Asleep s t
      → (st : Step t u) → continues st ≡ true
      → u.phase ≡ sleeping
      → Asleep s u

after_claim :
    (s t : System)
    → Asleep s t
    → t.phase ≡ sleeping
    → IsClaimed t.signalled t.workers
    → (u : System) × Asleep s u × (u.signalled ≡ true)
after_claim s t run p (inl q) = (t, run, q)
after_claim s t run p (inr (i, q)) = (_, next run (interrupt i q) refl p, refl)

after_load :
    (s t : System) (i : ℕ)
    → Asleep s t
    → t.phase ≡ sleeping
    → Inv t
    → t.workers i ≡ loaded
    → (u : System) × Asleep s u × (u.signalled ≡ true)
after_load s t i run p h q = elim (Bool-cases t.interrupt_pending) [
  | inl e ↦ after_claim s t run p (h.claim (rw p refl) e)
  | inr e ↦
      after_claim s _ (next run (swap i q) refl p) p (inr (i, rw ((==_iff i i).1 refl, e) refl))
]

after_push :
    (s t : System) (i : ℕ)
    → Asleep s t
    → t.phase ≡ sleeping
    → Inv t
    → t.workers i ≡ pushed
    → (u : System) × Asleep s u × (u.signalled ≡ true)
after_push s t i run p h q =
    after_load s _ i (next run (load i q) refl p) p (Step-Inv (load i q) h)
      (rw ((==_iff i i).1 refl, h.waits, p) refl)

wakes_from :
    (s : System) (i : ℕ) (w : Worker)
    → s.phase ≡ sleeping
    → Inv s
    → s.workers i ≡ w
    → w ≢ idle
    → (u : System) × Asleep s u × (u.signalled ≡ true)
wakes_from s i idle p h q b = absurd (b refl)
wakes_from s i taken p h q b =
    after_push s _ i (next (here p) (push i 0 q) refl p) p (Step-Inv (push i 0 q) h)
      (rw ((==_iff i i).1 refl) refl)
wakes_from s i pushed p h q b = after_push s s i (here p) p h q
wakes_from s i loaded p h q b = after_load s s i (here p) p h q
wakes_from s i claimed p h q b = after_claim s s (here p) p (inr (i, q))

-- No wake is lost: from every state that can be reached, in which the executor sleeps with a task in
-- the remote queue or the root future's flag set, the threads that are within a wake by then have
-- steps left, in which no thread begins a wake and the executor stays asleep, that lead to an
-- interrupt of the driver for it to take, if there is none yet.
pub wakeup_comes :
    {s : System}
    → Reach s
    → s.phase ≡ sleeping
    → (s.ready ≡ true) ⊎ (s.remote_queue ≢ [])
    → (t : System) × Asleep s t × (t.signalled ≡ true)
wakeup_comes {s} r p work = elim (asleep_with_work_is_active r p work) [
  | inl q ↦ (s, here p, q)
  | inr (i, b) ↦ wakes_from s i (s.workers i) p (Reach-Inv r) refl b
]
