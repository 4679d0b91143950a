-- ===== src/Driver/History.antt =====
-- The driver over any history of calls, from a poll without sources.
use vibeio.Prelude.{ℕ, ◌≡◌, Option, none, some, List}
use vibeio.Slab.{Slab}
use vibeio.Driver.Mio.{Registry}
use vibeio.Driver.Sync.{IsSynced, new-IsSynced}
use vibeio.Driver.Steps.{
  register-IsSynced, reregister-IsSynced, deregister-IsSynced, submit-IsSynced, wait-IsSynced,
}
use vibeio.Driver.{
  Registration, MioDriver, new, register_handle, reregister_handle, deregister_handle, submit_poll,
  wait_timeout,
}

module _ {S K : Type 0} ⦃slab : Slab S Registration⦄ ⦃registry : Registry K⦄ where
  -- One call, successful or not; after a wait that panics there is no next call.
  pub data Step : MioDriver S K → MioDriver S K → Type 0 where
    registers : {d : MioDriver S K} (fd interest : ℕ) → Step d (register_handle d fd interest).1
    reregisters :
        {d : MioDriver S K} (token interest : ℕ) → Step d (reregister_handle d token interest).1
    deregisters : {d : MioDriver S K} (token : ℕ) → Step d (deregister_handle d token).1
    submits :
        {d : MioDriver S K} (token waker interest : ℕ)
        → Step d (submit_poll d token waker interest).1
    waits :
        {d d' : MioDriver S K} (timeout : Option ℕ) (wakes : List ℕ)
        → wait_timeout d timeout ≡ some (wakes, d')
        → Step d d'

  pub data Reach : MioDriver S K → Type 0 where
    start : (poll : K) → ((fd : ℕ) → registry.watch poll fd ≡ none) → Reach (new poll)
    next : {d d' : MioDriver S K} → Reach d → Step d d' → Reach d'

  step-IsSynced : {d d' : MioDriver S K} → Step d d' → IsSynced d → IsSynced d'
  step-IsSynced (registers fd interest) h = register-IsSynced _ fd interest h
  step-IsSynced (reregisters token interest) h = reregister-IsSynced _ token interest h
  step-IsSynced (deregisters token) h = deregister-IsSynced _ token h
  step-IsSynced (submits token waker interest) h = submit-IsSynced _ token waker interest h
  step-IsSynced (waits timeout wakes p) h = wait-IsSynced _ _ timeout wakes p h

  -- After any history of calls, successful or not, every registration is a source that mio watches
  -- under its token, with the interest it remembers if any, and every source that mio watches has its
  -- registration: no call leaks one of them.
  pub Reach-IsSynced : {d : MioDriver S K} → Reach d → IsSynced d
  unfolding new
  Reach-IsSynced (start poll h) = new-IsSynced poll h
  Reach-IsSynced (next reach step) = step-IsSynced step (Reach-IsSynced reach)
