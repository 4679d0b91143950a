-- ===== src/Wheel/Missed.antt =====
-- A timer that `advance` misses: `calculate_level_and_slot` takes the slot from the delay, and the
-- scan of level 0 goes by the tick.
use vibeio.Prelude.{
  ℕ, zero, suc, ◌+◌, ◌-◌, ◌≤◌, ◌<◌, ◌%◌, ◌^◌, ◌≡◌, refl, ap, ◌∙◌, true, false, ◌&&◌, List, [],
  arith, leb, ◌==◌,
}
use vibeio.Slab.{Slab}
use mathlib.Core.Path.{fun_ext}
use vibeio.Wheel.Levels.{num_levels, level_below_64}
use vibeio.Wheel.Insert.{tick-insert}
use vibeio.Wheel.Advance.{moved_on, tick-advance}
use vibeio.Wheel.{
  TimingWheel, TimerEntry, set_slot, insert, advance, advance_from, process_timers, process_slot,
  process_slots, cascade_level, cascade_levels, cascade_all_levels, process_level_0,
  slots_per_level,
}

set_slot_same :
    (wheels : ℕ → ℕ → List ℕ) (level slot : ℕ)
    → wheels level slot ≡ []
    → set_slot wheels level slot [] ≡ wheels
set_slot_same wheels level slot h = fun_ext λ l. fun_ext λ s. ground (arith, h)

module _ {S : Type 0} ⦃slab : Slab S TimerEntry⦄ where
  process_slot_empty :
      (level slot : ℕ) (w : TimingWheel S) (expired : List ℕ)
      → w.wheels level slot ≡ []
      → process_slot level slot (w, expired) ≡ (w, expired)
  unfolding process_slot process_timers
  process_slot_empty level slot w expired h =
      rw (h, process_timers, set_slot_same w.wheels level slot h)

  process_slots_empty :
      (level first count : ℕ) (w : TimingWheel S) (expired : List ℕ)
      → ((slot : ℕ) → first ≤ slot → slot < first + count → w.wheels level slot ≡ [])
      → process_slots level first count (w, expired) ≡ (w, expired)
  unfolding process_slots
  process_slots_empty level first zero w expired h = refl
  process_slots_empty level first (suc count) w expired h =
      rw (process_slot_empty level first w expired (h first (omega arith) (omega arith))) (
        process_slots_empty level (suc first) count w expired
          (λ s p q. h s (omega arith) (omega arith)))

  cascade_levels_empty :
      (levels : ℕ) (w : TimingWheel S) (expired : List ℕ)
      → ((level slot : ℕ) → 0 < level → w.wheels level slot ≡ [])
      → cascade_levels levels (w, expired) ≡ (w, expired)
  unfolding cascade_levels cascade_level
  cascade_levels_empty zero w expired h = refl
  cascade_levels_empty (suc n) w expired h =
      rw
        (process_slots_empty (suc n) 0 slots_per_level w expired
          (λ s p q. h (suc n) s (omega arith)))
        (cascade_levels_empty n w expired h)

  process_level_0_empty :
      (start end ticks : ℕ) (w : TimingWheel S) (expired : List ℕ)
      → ticks < 64
      → start ≤ end
      → ((slot : ℕ) → start ≤ slot → slot ≤ end → w.wheels 0 slot ≡ [])
      → process_level_0 start end ticks (w, expired) ≡ (w, expired)
  unfolding process_level_0
  process_level_0_empty start end ticks w expired few order h =
      let short : leb slots_per_level ticks ≡ false = ground arith in
      let ordered : leb start end ≡ true = ground arith in
      rw (short, ordered)
        (process_slots_empty 0 start (end + 1 - start) w expired (λ s p q. h s p (omega arith)))

  advance_from_empty :
      (w : TimingWheel S) (ticks : ℕ)
      → w.current_tick % 64 + ticks < 64
      → w.current_tick + ticks < 2 ^ 64
      → ((level slot : ℕ) → 0 < level → w.wheels level slot ≡ [])
      → ((slot : ℕ)
          → w.current_tick % 64 ≤ slot
          → slot ≤ w.current_tick % 64 + ticks
          → w.wheels 0 slot ≡ [])
      → (advance_from w ticks).1 ≡ []
  unfolding advance_from cascade_all_levels
  advance_from_empty w ticks few room upper scanned =
      rw (cascade_levels_empty (num_levels - 1) (moved_on w ticks) [] upper) (
        ap (λ (st : TimingWheel S × List ℕ). st.1)
          (process_level_0_empty _ _ ticks _ [] (omega arith) (omega arith)
            (λ s p q. scanned s p (omega arith))))

  slot-insert :
      (w : TimingWheel S) (waker d level slot : ℕ)
      → d < 64
      → ((level == 0 && slot == d) ≡ false)
      → (insert w waker (w.current_tick + d)).1.wheels level slot ≡ w.wheels level slot
  unfolding insert
  slot-insert w waker d level slot few other =
      ground (arith, level_below_64 d, level_below_64 (w.current_tick + d - w.current_tick))

  fired-advance :
      (w : TimingWheel S) (ticks : ℕ) → (advance_from w ticks).1 ≡ [] → (advance w ticks).0 ≡ []
  unfolding advance
  fired-advance w ticks h = ground arith

  -- In a wheel whose slots are all empty, at a tick that is `r` modulo 64, a timer that is set for
  -- `d` ticks later with 0 < d < r and r + d < 64 does not fire when the wheel advances by these `d`
  -- ticks, though it is due: it stands in slot `d`, and the slots that are read are `r` to `r + d`.
  pub advance_misses_due_timer :
      (w : TimingWheel S) (waker d : ℕ)
      → ((level slot : ℕ) → w.wheels level slot ≡ [])
      → 0 < d
      → d < w.current_tick % 64
      → w.current_tick % 64 + d < 64
      → w.current_tick + d < 2 ^ 64
      → let w' = (insert w waker (w.current_tick + d)).1 in
        ((advance w' d).0 ≡ []) × ((advance w' d).1.current_tick ≡ w.current_tick + d)
  advance_misses_due_timer w waker d empty p q r room =
      let v = (insert w waker (w.current_tick + d)).1 in
      let t : v.current_tick ≡ w.current_tick = tick-insert w waker (w.current_tick + d) in
      let keeps = λ (level slot : ℕ) (other : (level == 0 && slot == d) ≡ false).
        slot-insert w waker d level slot (omega arith) other ∙ empty level slot in
      (
        fired-advance v d (
            advance_from_empty v d (omega arith) (omega arith)
              (λ level slot u. keeps level slot (ground arith))
              (λ slot u o. keeps 0 slot (ground arith))),
        tick-advance v d (omega arith) ∙ ap (λ (n : ℕ). n + d) t,
      )
