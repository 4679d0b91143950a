-- ===== src/Op/WaitPid/Tests.antt =====
-- A child that runs, behind a pidfd whose read fails with EINVAL, 22.
use vibeio.Prelude.{
  ℕ, ◌≡◌, ◌≢◌, refl, Bool, none, some, [], ◌∷◌, Result, err, os, would_block, arith, has,
}
use vibeio.Join.{Poll, ready}
use vibeio.Handle
use vibeio.Handle.{InnerRawHandle}
use vibeio.Calls.{running}
use vibeio.Calls.Table.{Table, table}
use vibeio.Op.WaitPid.{
  WaitPidState, init, polling, done, poll_loop, poll_pidfd, poll_completion, drop,
}
use vibeio.Op.WaitPid.Ends.{poll_loop_ends, unreadable_pidfd_ends_early}
use vibeio.Op.WaitPid.Owned.{IsOwned, polls_keep_descriptors}

abbrev process : Table
process = record { fds = 3 ∷ []; answer = err (os 22); peer = err (os 107); child = running }

abbrev handle : InnerRawHandle
handle = record { handle = 4; token = 0; interest = 1; mode = Handle.poll }

poll_loop_ends_example :
    (poll_loop 7 process (init 60) 9 ≡ poll_loop 2 process (init 60) 9)
    × (poll_loop 2 process (init 60) 9 ≢ none)
poll_loop_ends_example = poll_loop_ends 5 process (init 60) 9

unreadable_pidfd_ends_early_run :
    ((poll_completion process (polling 60 4 handle) 9).0 ≡ ready (err would_block))
    × ((poll_completion process (polling 60 4 handle) 9).1 ≡ done)
    × ((poll_pidfd process 60 4 handle 9).0 ≡ ready (err would_block))
    × ((poll_pidfd process 60 4 handle 9).1 ≡ done)
unreadable_pidfd_ends_early_run =
    unreadable_pidfd_ends_early process 60 4 9 handle (os 22) refl refl refl

abbrev base : ℕ → Bool
base fd = has fd (3 ∷ [])

abbrev polled : Poll (Result ℕ) × WaitPidState × Table
polled = (ready (err would_block), done, process)

IsOwned-init : IsOwned base process (init 60)
IsOwned-init j = (refl, λ t. absurd (ground arith))

gives_polled : poll_loop 2 process (init 60) 9 ≡ some polled
unfolding poll_loop
gives_polled = refl

polls_keep_descriptors_example :
    let completed = poll_completion process (init 60) 9 in
    IsOwned base polled.2 polled.1
    × IsOwned base completed.2 completed.1
    × ((j : ℕ) → table.opened (drop polled.2 polled.1) j ≡ base j)
    × ((j : ℕ) → table.opened (drop completed.2 completed.1) j ≡ base j)
polls_keep_descriptors_example =
    polls_keep_descriptors base process (init 60) 9 polled IsOwned-init gives_polled
