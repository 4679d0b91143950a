-- ===== src/Driver/Tests.antt =====
-- The driver over a table of sources.
use vibeio.Prelude.{
  ℕ, ◌≡◌, ◌≢◌, refl, true, Option, none, some, List, [], ◌∷◌, ok, err, not_found, os, arith, has,
}
use vibeio.Slab.Slots.{slots}
use vibeio.Driver.Table.{Table, tables}
use vibeio.Driver.Sync.{IsSynced}
use vibeio.Driver.Steps.{IsUnchanged}
use vibeio.Driver.Events.{waits, handle_events_sound}
use vibeio.Driver.History.{Reach, start, next, registers, submits, Reach-IsSynced}
use vibeio.Driver.Submit.{submit_poll_arms, submitted_is_woken, errors_change_nothing, IsArmed}
use vibeio.Driver.{
  Registration, MioDriver, new, register_handle, reregister_handle, deregister_handle, submit_poll,
  handle_events, handle_event, wait_timeout, interrupt_token,
}

abbrev Store : Type 0
Store = List (Option Registration)

-- No source yet; the next poll brings an event of token 0.
abbrev table : Table
table = record { sources = λ fd. none; incoming = 0 ∷ []; found = [] }

-- A driver with the descriptor 5, registered for the interest 1.
abbrev one_source : MioDriver Store Table
one_source = (register_handle (new table) 5 1).1

one_source-Reach : Reach one_source
one_source-Reach = next (start table (λ fd. refl)) (registers 5 1)

one_source-IsSynced : IsSynced one_source
one_source-IsSynced = Reach-IsSynced one_source-Reach

-- Then the waker 9 waits for the interest 2.
abbrev submitted : MioDriver Store Table
submitted = (submit_poll one_source 0 9 2).1

submit_succeeds : (submit_poll one_source 0 9 2).0 ≡ ok tt
unfolding submit_poll register_handle new
submit_succeeds = refl

submit_poll_arms_run : IsArmed submitted 0 9 2
submit_poll_arms_run = submit_poll_arms one_source 0 9 2 one_source-IsSynced submit_succeeds

Reach-IsSynced_example : IsSynced submitted
Reach-IsSynced_example = Reach-IsSynced (next one_source-Reach (submits 0 9 2))

event_comes : has 0 (tables.events (tables.poll submitted.poll none).1) ≡ true
unfolding submit_poll register_handle new has
event_comes = refl

submitted_is_woken_example :
    (wakes : List ℕ) × (after : MioDriver Store Table) × (wait_timeout submitted none
      ≡ some (wakes, after))
    × (has 9 wakes ≡ true)
    × ((fd : ℕ) × (tables.watch submitted.poll fd ≡ some (0, 2))
        × (slots.get after.registrations 0
            ≡ some (record { fd = fd; waiter = none; interest = none })))
submitted_is_woken_example =
    submitted_is_woken one_source 0 9 2 none (omega arith) one_source-IsSynced submit_succeeds refl
      event_comes

woken_9 : has 9 (handle_events submitted.registrations (interrupt_token ∷ 0 ∷ [])).0 ≡ true
unfolding submit_poll register_handle new has handle_events handle_event
woken_9 = refl

-- The events of the interruptor and of the source.
handle_events_sound_run :
    (token : ℕ) × (token ≢ interrupt_token)
    × (has token (interrupt_token ∷ 0 ∷ []) ≡ true)
    × (waits submitted.registrations token 9 ≡ true)
handle_events_sound_run =
    handle_events_sound submitted.registrations (interrupt_token ∷ 0 ∷ []) 9 woken_9

-- Descriptor 200 is refused; token 4 is unknown.
errors_change_nothing_run :
    ((register_handle one_source 200 1).0 ≡ err (os 1)
      → IsUnchanged one_source (register_handle one_source 200 1).1)
    × ((reregister_handle one_source 4 1).0 ≡ err (os 1)
        → IsUnchanged one_source (reregister_handle one_source 4 1).1)
    × ((deregister_handle one_source 4).0 ≡ err (os 1)
        → IsUnchanged one_source (deregister_handle one_source 4).1)
    × ((submit_poll one_source 4 9 1).0 ≡ err (os 1)
        → IsUnchanged one_source (submit_poll one_source 4 9 1).1)
errors_change_nothing_run = errors_change_nothing one_source 200 4 9 1 (os 1)

register_refused : (register_handle one_source 200 1).0 ≡ err (os 1)
unfolding register_handle new
register_refused = refl

submit_refused : (submit_poll one_source 4 9 1).0 ≡ err not_found
unfolding submit_poll register_handle new
submit_refused = refl
