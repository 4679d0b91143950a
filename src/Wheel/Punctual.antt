-- ===== src/Wheel/Punctual.antt =====
-- When timers fire: never early, and less than a round of level 0 late.
use vibeio.Prelude.{
  ℕ, ◌+◌, ◌≤◌, ◌<◌, ◌^◌, ◌≡◌, inl, inr, refl, some, arith, ltb, leb, ◌==◌, has-nil, Bool-cases,
  ==_iff,
}
use vibeio.Slab.{Slab}
use vibeio.Wheel.Drain.{IsProgress, IsProgress-first}
use vibeio.Wheel.Heap.{Item, All-mono}
use vibeio.Wheel.Invariant.{IsWellFormed, IsSound, next_scan, refresh-IsWellFormed}
use vibeio.Wheel.Advance.{
  moved_on, advance_from-IsProgress, advance_from-IsPlaced, advance_from-IsClear,
  advance_from-IsClear_level_0,
}
use vibeio.Wheel.{TimingWheel, TimerEntry, advance, advance_from}

module _ {S : Type 0} ⦃slab : Slab S TimerEntry⦄ where
  module _ (w : TimingWheel S) (ticks : ℕ) (h : IsWellFormed w)
      (room : w.current_tick + ticks < 2 ^ 64) where
    made : IsProgress (moved_on w ticks) (advance_from w ticks)
    made = advance_from-IsProgress w ticks

    tick-advance_from : (advance_from w ticks).0.current_tick ≡ w.current_tick + ticks
    tick-advance_from = omega (arith, made.tick)

    -- A timer that is overdue and still there has not been touched.
    overdue_untouched :
        (k : ℕ) (f : TimerEntry)
        → slab.get (advance_from w ticks).0.entries k ≡ some f
        → f.expiration_tick ≤ w.current_tick + ticks
        → slab.get w.entries k ≡ some f
    overdue_untouched k f p q = elim (made.origin k f p) [
      | inl r ↦ r
      | inr (e, r, same, ahead) ↦ absurd (omega arith)
    ]

    -- It waits at level 0.
    overdue_level :
        (k : ℕ) (f : TimerEntry)
        → slab.get (advance_from w ticks).0.entries k ≡ some f
        → f.expiration_tick ≤ w.current_tick + ticks
        → f.level ≡ 0
    overdue_level k f p q = elim (Bool-cases (f.level == 0)) [
      | inl e ↦ (==_iff f.level 0).0 e
      | inr e ↦
          let place = (advance_from-IsPlaced w ticks h.placed).at k f p in
          let clear =
            (advance_from-IsClear w ticks f.level f.slot h.placed (ground arith) place.0 place.1).at
              k f p refl refl in
          ground (arith, clear, has-nil k, tick-advance_from)
    ]

    -- Its slot has not been scanned since a tick at which it was not overdue.
    overdue_unscanned :
        (k p : ℕ) (f : TimerEntry)
        → slab.get (advance_from w ticks).0.entries k ≡ some f
        → f.expiration_tick ≤ w.current_tick + ticks
        → w.current_tick < next_scan p f.slot
        → w.current_tick + ticks < next_scan p f.slot
    overdue_unscanned k p f q late before =
        elim (Bool-cases (ltb (w.current_tick + ticks) (next_scan p f.slot))) [
          | inl e ↦ ground arith
          | inr e ↦
              let place = (advance_from-IsPlaced w ticks h.placed).at k f q in
              let clear =
                (advance_from-IsClear_level_0 w ticks (next_scan p f.slot) h.placed room
                    (omega arith) (ground arith)).at
                  k f q (overdue_level k f q late) (omega arith) in
              ground (arith, clear, has-nil k, tick-advance_from)
        ]

    advance_from_timely :
        (k : ℕ) (f : TimerEntry)
        → slab.get (advance_from w ticks).0.entries k ≡ some f
        → f.expiration_tick ≤ w.current_tick + ticks
        → (f.level ≡ 0)
          × (p : ℕ) × (p ≤ f.expiration_tick)
          × (w.current_tick + ticks < next_scan p f.slot)
    advance_from_timely k f q late = elim (Bool-cases (leb f.expiration_tick w.current_tick)) [
      | inl e ↦
          let (_, p, before, ahead) = h.timely k f (overdue_untouched k f q late) (ground arith) in
          (overdue_level k f q late, p, before, overdue_unscanned k p f q late ahead)
      | inr e ↦ (
        overdue_level k f q late,
        w.current_tick,
        ground arith,
        overdue_unscanned k w.current_tick f q late (omega arith),
      )
    ]

    advance_from-IsWellFormed : IsWellFormed (advance_from w ticks).0
    advance_from-IsWellFormed = record {
      placed = advance_from-IsPlaced w ticks h.placed;
      positive = λ k f p.
          let (e, q, same) = IsProgress-first _ _ k f made p in omega (arith, h.positive k e q);
      timely = λ k f p late.
          rw tick-advance_from (advance_from_timely k f p (omega (arith, tick-advance_from)));
      covered = λ k f p.
          let (e, q, same) = IsProgress-first _ _ k f made p in
          ground (arith, h.covered k e q, made.heap);
      sound = rw (made.heap, made.counter) (All-mono sounds w.expiration_heap h.sound);
      sorted = rw made.heap h.sorted;
    }
      where
        sounds :
            (x : Item)
            → IsSound (slab.get w.entries) w.generation_counter x
            → IsSound (slab.get (advance_from w ticks).0.entries) w.generation_counter x
        sounds (t, i, g) o = (
          o.0,
          λ f p q.
              let (e, r, same) = IsProgress-first _ _ i f made p in
              omega (arith, o.1 e r (omega arith)),
        )

    pub advance-IsWellFormed : IsWellFormed (advance w ticks).1
    unfolding advance
    advance-IsWellFormed = elim (Bool-cases (ticks == 0)) [
      | inl e ↦ rw e h
      | inr e ↦ rw e (refresh-IsWellFormed _ advance_from-IsWellFormed)
    ]
