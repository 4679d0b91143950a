-- ===== src/Signal/Tests.antt =====
-- SIGINT, 2, and SIGTERM, 15.
use vibeio.Prelude.{
  ◌≡◌, ◌≢◌, refl, true, false, none, some, List, [], ◌∷◌, would_block, arith, has, ◌==◌,
  if◌then◌else◌,
}
use vibeio.Signal.{to_ne_bytes, Read, got, failed, dispatch_loop, register_waker}
use vibeio.Signal.Wire.{written, brought, dispatch_loop-written}
use vibeio.Signal.Listen.{
  Race, Reach, IsServed, start, next, load, register, outside, sleeping, Reach-IsServed,
  signal_can_be_missed,
}
use vibeio.Signal.Registry.{
  Registry, RegisteredSignal, ours, foreign, register_signal, release, restore, unregister_signal,
  IsCounted, unregister-register, late_restore_loses_handler,
}

-- The second signal comes in two reads.
abbrev reads : List Read
reads = got (2 ∷ 0 ∷ 0 ∷ 0 ∷ 15 ∷ []) ∷ failed would_block ∷ got (0 ∷ 0 ∷ 0 ∷ []) ∷ []

same_bytes : brought reads ≡ written true (2 ∷ 15 ∷ [])
unfolding brought written to_ne_bytes
same_bytes = refl

dispatch_loop-written_example : dispatch_loop true [] reads ≡ (2 ∷ 15 ∷ [], [])
dispatch_loop-written_example =
    dispatch_loop-written true (2 ∷ 15 ∷ []) reads (omega arith, (omega arith, tt)) same_bytes

abbrev first : Race
first = record {
  state = record { counter = 0; wakers = [] };
  last_seen = 0;
  phase = outside;
  dispatching = false;
  woken = [];
}

abbrev asleep : Race
asleep = record first {
  phase = sleeping;
  state = record { counter = 0; wakers = register_waker [] 9 };
}

asleep-Reach : Reach 9 asleep
asleep-Reach = next (next (start first refl refl refl refl) (load refl refl)) (register refl)

Reach-IsServed_example : IsServed 9 asleep
Reach-IsServed_example = Reach-IsServed 9 asleep-Reach

signal_can_be_missed_run :
    (s : Race) × Reach 9 s
    × (s.phase ≡ sleeping)
    × (s.dispatching ≡ false)
    × (has 9 s.woken ≡ false)
    × (s.state.counter ≢ s.last_seen)
signal_can_be_missed_run = signal_can_be_missed 9 0 (omega arith)

abbrev listener : RegisteredSignal
listener = record { state = 0; refs = 1; prev_action = foreign 5 }

-- SIGINT has one listener.
abbrev registry : Registry
registry = record {
  signals = λ k. if k == 2 then some listener else none;
  actions = λ k. if k == 2 then ours else foreign 0;
  next_state = 1;
}

IsCounted-registry : IsCounted registry
unfolding IsCounted
IsCounted-registry j entry p = ground arith

unregister-register_run :
    let r = unregister_signal (register_signal registry 15 none).1 15 in
    (r.signals 2 ≡ some listener) × (r.actions 2 ≡ ours)
unregister-register_run = unregister-register registry 15 2 IsCounted-registry

late_restore_loses_handler_run :
    let released = release registry 2 in
    let registered = register_signal released.1 2 none in
    let r = restore registered.1 2 released.0 in
    (r.actions 2 ≡ foreign 5)
    × (r.signals 2 ≡ some (record { state = 1; refs = 1; prev_action = ours }))
late_restore_loses_handler_run = late_restore_loses_handler registry 2 listener refl refl
