-- ===== src/Op/WaitPid/Ends.antt =====
-- How a wait for a child ends, and what it leaves open.
use vibeio.Prelude.{
  ℕ, suc, ◌≡◌, ◌≢◌, refl, false, none, inl, inr, err, IoError, would_block, Result-cases, arith,
}
use vibeio.Join.{ready}
use vibeio.Handle.{InnerRawHandle}
use vibeio.Calls.{Calls, running}
use vibeio.Op.WaitPid.{
  WaitPidState, init, polling, done, blocks, reap, open_handle, poll_loop, poll_pidfd, end_poll,
  poll_completion,
}

module _ {D : Type 0} ⦃calls : Calls D⦄ where
  -- The loop ends within two rounds, from every state.
  pub poll_loop_ends :
      (fuel : ℕ) (d : D) (state : WaitPidState) (waker : ℕ)
      → (poll_loop (suc (suc fuel)) d state waker ≡ poll_loop 2 d state waker)
        × (poll_loop 2 d state waker ≢ none)
  unfolding poll_loop
  poll_loop_ends fuel d (init pid) waker = elim (Result-cases (open_handle d pid).0) [
    | inl (both, p) ↦ (ground arith, λ q. ground arith)
    | inr (e, p) ↦ (ground arith, λ q. ground arith)
  ]
  poll_loop_ends fuel d (polling pid pidfd handle) waker = (refl, λ q. ground arith)
  poll_loop_ends fuel d done waker = (refl, λ q. ground arith)

  -- A child that runs, and a pidfd whose read fails with another error than EAGAIN: the operation is
  -- over, its answer is the error EAGAIN, and the child's status is not waited for any more.
  pub unreadable_pidfd_ends_early :
      (d : D) (pid pidfd waker : ℕ) (handle : InnerRawHandle) (e : IoError)
      → (calls.read d handle.handle).0 ≡ err e
      → blocks (err e) ≡ false
      → (calls.waitpid (calls.read d handle.handle).1 pid).0 ≡ running
      → ((poll_completion d (polling pid pidfd handle) waker).0 ≡ ready (err would_block))
        × ((poll_completion d (polling pid pidfd handle) waker).1 ≡ done)
        × ((poll_pidfd d pid pidfd handle waker).0 ≡ ready (err would_block))
        × ((poll_pidfd d pid pidfd handle waker).1 ≡ done)
  unfolding poll_completion poll_pidfd end_poll reap
  unreadable_pidfd_ends_early d pid pidfd waker handle e p q r =
      (ground arith, ground arith, ground arith, ground arith)
