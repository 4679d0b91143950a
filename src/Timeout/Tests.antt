-- ===== src/Timeout/Tests.antt =====
-- A race of 5 milliseconds with a future that never finishes.
use vibeio.Prelude.{ℕ, ◌+◌, ◌≤◌, ◌<◌, ◌≡◌, ◌⊎◌, refl, Option, List, arith}
use vibeio.Slab.Slots.{slots}
use vibeio.Join.{Poll, ready, pending}
use vibeio.Wheel.{TimerEntry}
use vibeio.Timer.{Timer, nanos_per_milli}
use vibeio.Timer
use vibeio.Timeout.Race.{timeout_at_deadline}
use vibeio.Timeout.{output, timeout_error, Timeout, new, poll}

abbrev never : ℕ → Poll ℕ × ℕ
never n = (pending, n)

abbrev fresh_timer : Timer (List (Option TimerEntry))
fresh_timer = Timer.new 0

abbrev race : Timeout ℕ
race = new 3 0 5000000

instant_lem : fresh_timer.instant ≡ 0
unfolding Timer.new
instant_lem = refl

timeout_at_deadline_example :
    ((value : ℕ)
      → (never 3).0 ≡ ready value
      → (poll never race fresh_timer 1 7).answer ≡ ready (output value))
    × ((poll never race fresh_timer 1 7).answer ≡ ready timeout_error
        → ((never 3).0 ≡ pending)
          × ((5000000 ≤ 1) ⊎ (5000000 < fresh_timer.instant + nanos_per_milli))
          × ((timer' : Timer (List (Option TimerEntry))) (now' waker' : ℕ)
              → let after = (poll never race fresh_timer 1 7).timeout in
                ((poll never after timer' now' waker').answer ≡ ready timeout_error)
                × ((poll never after timer' now' waker').timeout ≡ after)))
timeout_at_deadline_example =
    timeout_at_deadline never race fresh_timer 1 7 refl refl (rw instant_lem (omega arith))
