-- ===== src/Reaper/Tests.antt =====
-- Runs of the reaper at fixed events.
use vibeio.Prelude.{
  ℕ, ◌+◌, ◌≡◌, ◌⊎◌, true, false, refl, Option, some, List, [], ◌∷◌, ok, count, ◌==◌, if◌then◌else◌,
}
use vibeio.Calls.{Waited, exited, running}
use vibeio.Reaper.{
  ZombieReaperMessage, Reaper, look_at, look_at_all, on_signal, Event, received, closed, signalled,
  zombie_reaper_fn_unix, stop,
}
use vibeio.Reaper.Senders.{senders, taken, ends, tally, tally-zombie_reaper_fn_unix}

abbrev child_of : ℕ → Option ℕ → ZombieReaperMessage
child_of child sender = record { child = child; sender = sender }

abbrev no_children : Reaper
no_children = record { processes = []; sent = []; dropped = [] }

abbrev second_exits : ℕ → Waited
second_exits child = if child == 2 then exited 9 else running

abbrev three_children : List Event
three_children =
    received (child_of 1 (some 10)) running
    ∷ received (child_of 2 (some 20)) running
    ∷ received (child_of 3 (some 30)) (exited 0)
    ∷ signalled second_exits
    ∷ closed
    ∷ []

three_children_run : zombie_reaper_fn_unix three_children no_children ≡ record {
  processes = [];
  sent = (30, ok 0) ∷ (20, ok 9) ∷ [];
  dropped = child_of 1 (some 10) ∷ [];
}
unfolding zombie_reaper_fn_unix stop look_at look_at_all on_signal
three_children_run = refl

tally-zombie_reaper_fn_unix_example :
    let after = zombie_reaper_fn_unix three_children no_children in
    (tally 20 after ≡ tally 20 no_children + count 20 (senders (taken three_children)))
    × (((ends three_children ≡ true) × (after.processes ≡ []))
        ⊎ ((ends three_children ≡ false) × (after.dropped ≡ no_children.dropped)))
tally-zombie_reaper_fn_unix_example = tally-zombie_reaper_fn_unix 20 three_children no_children
