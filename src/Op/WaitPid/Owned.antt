-- ===== src/Op/WaitPid/Owned.antt =====
-- The descriptors that a wait for a child leaves open.
use vibeio.Prelude.{
  ℕ, ◌≡◌, Bool, true, false, some, inl, inr, Result, ok, err, IoError, Result-cases, Bool-cases,
  arith, ◌==◌, ◌||◌, if◌then◌else◌,
}
use vibeio.Join.{Poll}
use vibeio.Handle.{InnerRawHandle}
use vibeio.Calls.{Calls}
use vibeio.Op.WaitPid.{
  WaitPidState, init, polling, done, blocks, reap, open_handle, poll_loop, poll_pidfd, end_poll,
  wait_again, poll_completion, start_completion, end_completion, drop,
}

-- The descriptor that a state holds.
abbrev pub holds : WaitPidState → ℕ → Bool
holds (init pid) j = false
holds (polling pid pidfd handle) j = pidfd == j
holds done j = false

module _ {D : Type 0} ⦃calls : Calls D⦄ where
  -- The descriptors that are open are those of the state and those of a set that is not the state's.
  abbrev pub IsOwned : (ℕ → Bool) → D → WaitPidState → Type 0
  IsOwned base d state =
      (j : ℕ)
      → (calls.opened d j ≡ (holds state j || base j)) × (holds state j ≡ true → base j ≡ false)

  open_handle_ok :
      (base : ℕ → Bool) (d : D) (pid pidfd : ℕ) (handle : InnerRawHandle)
      → IsOwned base d (init pid)
      → (open_handle d pid).0 ≡ ok (pidfd, handle)
      → IsOwned base (open_handle d pid).1 (polling pid pidfd handle)
  unfolding open_handle
  open_handle_ok base d pid pidfd handle h p j = elim (Result-cases (calls.pidfd_open d pid).0) [
    | inr (e, q) ↦ absurd (ground arith)
    | inl (fd, q) ↦
        let d' = (calls.pidfd_open d pid).1 in
        elim (Result-cases (calls.new_handle d' fd).0) [
          | inr (e, r) ↦ absurd (ground arith)
          | inl (inner, r) ↦
              let same : fd ≡ pidfd = ground arith in
              let facts = calls.pidfd_open_ok d pid fd j q in
              (
                ground (arith, same, facts, calls.opened-new_handle d' fd j, h j),
                λ t. ground (arith, same, facts, h j),
              )
        ]
  ]

  open_handle_err :
      (base : ℕ → Bool) (d : D) (pid : ℕ) (e : IoError)
      → IsOwned base d (init pid)
      → (open_handle d pid).0 ≡ err e
      → (j : ℕ) → calls.opened (open_handle d pid).1 j ≡ base j
  unfolding open_handle
  open_handle_err base d pid e h p j = elim (Result-cases (calls.pidfd_open d pid).0) [
    | inr (e', q) ↦ ground (arith, calls.pidfd_open_err d pid j e' q, h j)
    | inl (fd, q) ↦
        let d' = (calls.pidfd_open d pid).1 in
        elim (Result-cases (calls.new_handle d' fd).0) [
          | inl (inner, r) ↦ absurd (ground arith)
          | inr (e', r) ↦ ground (
            arith,
            calls.pidfd_open_ok d pid fd j q,
            calls.opened-new_handle d' fd j,
            calls.opened-close (calls.new_handle d' fd).1 fd j,
            h j,
          )
        ]
  ]

  opened-wait_again :
      (d : D) (handle : InnerRawHandle) (waker j : ℕ)
      → calls.opened (wait_again d handle waker).1 j ≡ calls.opened d j
  unfolding wait_again
  opened-wait_again d handle waker j =
      ground (arith, calls.opened-submit_poll d handle.token waker false j)

  opened-end_poll :
      (d : D) (pid pidfd : ℕ) (handle : InnerRawHandle) (j : ℕ)
      → calls.opened (end_poll d pid pidfd handle).2 j
        ≡ (if pidfd == j then false else calls.opened d j)
  unfolding end_poll reap
  opened-end_poll d pid pidfd handle j =
      let waited = (calls.waitpid d pid).1 in
      ground (
        arith,
        calls.opened-waitpid d pid j,
        calls.opened-close waited pidfd j,
        calls.opened-drop_handle (calls.close waited pidfd) handle j,
      )

  poll_pidfd-IsOwned :
      (base : ℕ → Bool) (d : D) (pid pidfd : ℕ) (handle : InnerRawHandle) (waker : ℕ)
      → IsOwned base d (polling pid pidfd handle)
      → let result = poll_pidfd d pid pidfd handle waker in IsOwned base result.2 result.1
  unfolding poll_pidfd
  poll_pidfd-IsOwned base d pid pidfd handle waker h j =
      let got = calls.read d handle.handle in
      elim (Bool-cases (blocks got.0)) [
        | inl p ↦ (
          ground (
            arith,
            opened-wait_again got.1 handle waker j,
            calls.opened-read d handle.handle j,
            h j,
          ),
          λ t. ground (arith, h j),
        )
        | inr p ↦ (
          ground (
            arith,
            opened-end_poll got.1 pid pidfd handle j,
            calls.opened-read d handle.handle j,
            h j,
          ),
          λ t. ground (arith, h j),
        )
      ]

  opened-end_completion :
      (d : D) (pid pidfd : ℕ) (handle : InnerRawHandle) (j : ℕ)
      → calls.opened (end_completion d pid pidfd handle).2 j
        ≡ (if pidfd == j then false else calls.opened d j)
  unfolding end_completion reap
  opened-end_completion d pid pidfd handle j =
      let waited = (calls.waitpid d pid).1 in
      ground (
        arith,
        calls.opened-waitpid d pid j,
        calls.opened-drop_handle waited handle j,
        calls.opened-close (calls.drop_handle waited handle) pidfd j,
      )

  poll_loop-IsOwned :
      (base : ℕ → Bool) (d : D) (state : WaitPidState) (waker : ℕ)
      (polled : Poll (Result ℕ) × WaitPidState × D)
      → IsOwned base d state
      → poll_loop 2 d state waker ≡ some polled
      → IsOwned base polled.2 polled.1
  unfolding poll_loop
  poll_loop-IsOwned base d (init pid) waker polled h p = elim (Result-cases (open_handle d pid).0) [
    | inr (e, q) ↦ λ j. (ground (arith, open_handle_err base d pid e h q j), λ t. ground arith)
    | inl ((pidfd, handle), q) ↦ λ j. ground (
      arith,
      poll_pidfd-IsOwned base (open_handle d pid).1 pid pidfd handle waker
          (open_handle_ok base d pid pidfd handle h q) j,
    )
  ]
  poll_loop-IsOwned base d (polling pid pidfd handle) waker polled h p =
      λ j. ground (arith, poll_pidfd-IsOwned base d pid pidfd handle waker h j)
  poll_loop-IsOwned base d done waker polled h p = λ j. ground (arith, h j)

  poll_completion-IsOwned :
      (base : ℕ → Bool) (d : D) (state : WaitPidState) (waker : ℕ)
      → IsOwned base d state
      → let completed = poll_completion d state waker in IsOwned base completed.2 completed.1
  unfolding poll_completion start_completion
  poll_completion-IsOwned base d (init pid) waker h j = elim (Result-cases (open_handle d pid).0) [
    | inr (e, q) ↦ (ground (arith, open_handle_err base d pid e h q j), λ t. ground arith)
    | inl ((pidfd, handle), q) ↦
        let d' = (open_handle d pid).1 in
        let owned = open_handle_ok base d pid pidfd handle h q j in
        (ground (arith, owned, opened-wait_again d' handle waker j), λ t. ground (arith, owned))
  ]
  poll_completion-IsOwned base d (polling pid pidfd handle) waker h j =
      let got = calls.read d handle.handle in
      elim (Bool-cases (blocks got.0)) [
        | inl p ↦ (
          ground (
            arith,
            opened-wait_again got.1 handle waker j,
            calls.opened-read d handle.handle j,
            h j,
          ),
          λ t. ground (arith, h j),
        )
        | inr p ↦ (
          ground (
            arith,
            opened-end_completion got.1 pid pidfd handle j,
            calls.opened-read d handle.handle j,
            h j,
          ),
          λ t. ground (arith, h j),
        )
      ]
  poll_completion-IsOwned base d done waker h j = h j

  opened-drop :
      (base : ℕ → Bool) (d : D) (state : WaitPidState)
      → IsOwned base d state
      → (j : ℕ) → calls.opened (drop d state) j ≡ base j
  unfolding drop
  opened-drop base d (init pid) h j = ground (arith, h j)
  opened-drop base d (polling pid pidfd handle) h j = ground (
    arith,
    h j,
    calls.opened-close d pidfd j,
    calls.opened-drop_handle (calls.close d pidfd) handle j,
  )
  opened-drop base d done h j = ground (arith, h j)

  pub polls_keep_descriptors :
      (base : ℕ → Bool) (d : D) (state : WaitPidState) (waker : ℕ)
      (polled : Poll (Result ℕ) × WaitPidState × D)
      → IsOwned base d state
      → poll_loop 2 d state waker ≡ some polled
      → let completed = poll_completion d state waker in
        IsOwned base polled.2 polled.1
        × IsOwned base completed.2 completed.1
        × ((j : ℕ) → calls.opened (drop polled.2 polled.1) j ≡ base j)
        × ((j : ℕ) → calls.opened (drop completed.2 completed.1) j ≡ base j)
  polls_keep_descriptors base d state waker polled h p =
      let after = poll_loop-IsOwned base d state waker polled h p in
      let completed = poll_completion d state waker in
      let after_completion = poll_completion-IsOwned base d state waker h in
      (
        after,
        after_completion,
        opened-drop base polled.2 polled.1 after,
        opened-drop base completed.2 completed.1 after_completion,
      )
