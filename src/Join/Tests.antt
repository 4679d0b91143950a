-- ===== src/Join/Tests.antt =====
-- A handle and its task at a concrete future.
use vibeio.Prelude.{ℕ, zero, suc, ◌≡◌, refl, [], ◌∷◌}
use vibeio.Join.{Poll, ready, pending, JoinState, spawned, cancel, poll_task, poll_handle}
use vibeio.Join.Deliver.{canceled_is_not_polled, handle_gets_output}

-- A future that is ready with 42 after as many polls as it says.
abbrev countdown : ℕ → Poll ℕ × ℕ
countdown zero = (ready 42, zero)
countdown (suc n) = (pending, n)

abbrev fresh : JoinState ℕ
fresh = spawned

canceled_is_not_polled_run :
    ((poll_task countdown 3 (cancel fresh)).future ≡ 3)
    × ((poll_task countdown 3 (cancel fresh)).state ≡ cancel fresh)
    × ((poll_task countdown 3 (cancel fresh)).wakes ≡ [])
    × ((poll_task countdown 3 (cancel fresh)).answer ≡ ready tt)
canceled_is_not_polled_run = canceled_is_not_polled countdown 3 fresh

handle_gets_output_example :
    let waiting = (poll_handle fresh 7).1 in
    let polled = poll_task countdown 0 waiting in
    ((poll_handle fresh 7).0 ≡ pending)
    × (polled.wakes ≡ 7 ∷ [])
    × (polled.answer ≡ ready tt)
    × ((poll_handle polled.state 8).0 ≡ ready 42)
    × ((poll_handle (poll_handle polled.state 8).1 8).0 ≡ pending)
unfolding spawned
handle_gets_output_example = handle_gets_output countdown 0 0 fresh 7 8 42 refl refl refl
