-- ===== src/Wheel/History.antt =====
-- Any sequence of calls on a new wheel.
use vibeio.Prelude.{ℕ, ◌+◌, ◌<◌, ◌^◌, ◌≡◌, inl, inr, some, arith, leb, Bool-cases}
use vibeio.Slab.{Slab}
use vibeio.Wheel.Invariant.{IsWellFormed, new-IsWellFormed, refresh-IsWellFormed}
use vibeio.Wheel.Insert.{insert-IsWellFormed}
use vibeio.Wheel.Remove.{remove-IsWellFormed}
use vibeio.Wheel.Punctual.{advance-IsWellFormed}
use vibeio.Wheel.{
  TimingWheel, TimerEntry, TimerHandle, new, insert, remove, nearest_wakeup, advance,
}

module _ {S : Type 0} ⦃slab : Slab S TimerEntry⦄ where
  -- A call of the wheel by `Timer`: timers are set for later ticks only, and the counters, which would
  -- take millions of years, do not overflow.
  pub data Step (w : TimingWheel S) : TimingWheel S → Type 0 where
    inserts :
        (waker tick : ℕ)
        → w.current_tick < tick
        → w.generation_counter + 1 < 2 ^ 64
        → Step w (insert w waker tick).1
    removes : (handle : TimerHandle) → Step w (remove w handle)
    advances : (ticks : ℕ) → w.current_tick + ticks < 2 ^ 64 → Step w (advance w ticks).1
    asks : Step w (nearest_wakeup w).1

  pub data Reach : TimingWheel S → Type 0 where
    start : Reach new
    next : {v w : TimingWheel S} → Reach v → Step v w → Reach w

  Step-IsWellFormed : {v w : TimingWheel S} → Step v w → IsWellFormed v → IsWellFormed w
  unfolding nearest_wakeup
  Step-IsWellFormed (inserts waker tick later room) h =
      insert-IsWellFormed _ waker tick h later room
  Step-IsWellFormed (removes handle) h = remove-IsWellFormed _ handle h
  Step-IsWellFormed (advances ticks room) h = advance-IsWellFormed _ ticks h room
  Step-IsWellFormed asks h = refresh-IsWellFormed _ h

  -- Every wheel that insertions for later ticks, removals, advances and questions for the nearest
  -- wake-up lead to from the new wheel is well formed, if neither counter reaches 2 ^ 64 on the
  -- way.
  pub Reach-IsWellFormed : {w : TimingWheel S} → Reach w → IsWellFormed w
  Reach-IsWellFormed start = new-IsWellFormed
  Reach-IsWellFormed (next r st) = Step-IsWellFormed st (Reach-IsWellFormed r)

  -- After any row of calls from the new wheel, namely insertions for later ticks, removals,
  -- advances and questions for the nearest wake-up, in which neither counter reaches 2 ^ 64, a
  -- timer that is still in the wheel is late by less than 64 ticks.
  pub lateness_bound :
      {w : TimingWheel S} (k : ℕ) (e : TimerEntry)
      → Reach w
      → slab.get w.entries k ≡ some e
      → w.current_tick < e.expiration_tick + 64
  lateness_bound {w} k e r p = elim (Bool-cases (leb e.expiration_tick w.current_tick)) [
    | inl q ↦
        let (_, t, before, waits) = (Reach-IsWellFormed r).timely k e p (ground arith) in
        omega arith
    | inr q ↦ ground arith
  ]
