-- ===== src/Wheel/Advance.antt =====
-- `advance`: which timers it fires, and that none is late by more than a round of level 0.
use vibeio.Prelude.{
  ℕ, ◌+◌, ◌-◌, ◌≤◌, ◌<◌, ◌%◌, ◌^◌, ◌≡◌, inl, inr, refl, List, [], arith, has-nil, add64,
}
use vibeio.Slab.{Slab}
use vibeio.Wheel.Levels.{num_levels}
use vibeio.Wheel.Drain.{IsPlaced, IsProgress, IsClear}
use vibeio.Wheel.Scan.{
  KeepsSlot, IsPlaced-KeepsSlot, IsProgress-KeepsSlot, IsClear-KeepsSlot, cascade_levels_keep,
  cascade_levels-IsClear, process_level_0_keep,
}
use vibeio.Wheel.Window.{process_level_0-IsClear}
use vibeio.Wheel.{
  nearest_wakeup, refresh_min_expiration, advance, TimingWheel, TimerEntry, advance_from,
  cascade_all_levels,
}

module _ {S : Type 0} ⦃slab : Slab S TimerEntry⦄ where
  -- The wheel at its new tick, before any slot is read.
  abbrev pub moved_on : TimingWheel S → ℕ → TimingWheel S
  moved_on w ticks = record w { current_tick = add64 w.current_tick ticks }

  advance_from_keep {ℓ} :
      {P : TimingWheel S × List ℕ → Type ℓ} (w : TimingWheel S) (ticks : ℕ)
      → KeepsSlot P
      → P (moved_on w ticks, [])
      → P (advance_from w ticks)
  unfolding advance_from cascade_all_levels
  advance_from_keep w ticks keep h =
      process_level_0_keep keep _ _ ticks _ (cascade_levels_keep keep (num_levels - 1) _ h)

  IsProgress-start : (w : TimingWheel S) → IsProgress w (w, [])
  IsProgress-start w = record {
    tick = refl;
    counter = refl;
    heap = refl;
    origin = λ k f p. inl p;
    fate = λ k e p. inr (e, p, (refl, refl, refl));
    sound = λ x p. cc (has-nil x);
  }

  pub advance_from-IsProgress :
      (w : TimingWheel S) (ticks : ℕ) → IsProgress (moved_on w ticks) (advance_from w ticks)
  advance_from-IsProgress w ticks =
      advance_from_keep w ticks (IsProgress-KeepsSlot (moved_on w ticks))
        (IsProgress-start (moved_on w ticks))

  pub advance_from-IsPlaced :
      (w : TimingWheel S) (ticks : ℕ) → IsPlaced [] w → IsPlaced [] (advance_from w ticks).0
  advance_from-IsPlaced w ticks h =
      advance_from_keep w ticks IsPlaced-KeepsSlot (record { at = h.at })

  -- The cascade leaves no overdue timer above level 0.
  pub advance_from-IsClear :
      (w : TimingWheel S) (ticks level slot : ℕ)
      → IsPlaced [] w
      → 0 < level
      → level < 7
      → slot < 64
      → IsClear [] level slot (advance_from w ticks).0
  unfolding advance_from cascade_all_levels
  advance_from-IsClear w ticks level slot h p q r =
      process_level_0_keep (IsClear-KeepsSlot level slot) _ _ ticks _ (
        cascade_levels-IsClear (num_levels - 1) level slot _ (record { at = h.at }) p (omega arith)
          r)

  -- The scan leaves none in the slots of the ticks from the old one to the new one.
  pub advance_from-IsClear_level_0 :
      (w : TimingWheel S) (ticks tau : ℕ)
      → IsPlaced [] w
      → w.current_tick + ticks < 2 ^ 64
      → w.current_tick ≤ tau
      → tau ≤ w.current_tick + ticks
      → IsClear [] 0 (tau % 64) (advance_from w ticks).0
  unfolding advance_from cascade_all_levels
  advance_from-IsClear_level_0 w ticks tau h room p q =
      let now : add64 w.current_tick ticks ≡ w.current_tick + ticks = omega arith in
      rw now (
        process_level_0-IsClear w.current_tick ticks tau _
          (cascade_levels_keep IsPlaced-KeepsSlot (num_levels - 1) _ (record { at = h.at })) p q)

  pub tick-advance :
      (w : TimingWheel S) (ticks : ℕ)
      → w.current_tick + ticks < 2 ^ 64
      → (advance w ticks).1.current_tick ≡ w.current_tick + ticks
  unfolding advance refresh_min_expiration
  tick-advance w ticks room = ground (arith, (advance_from-IsProgress w ticks).tick)

  pub tick-advance-le :
      (w : TimingWheel S) (ticks : ℕ) → (advance w ticks).1.current_tick ≤ w.current_tick + ticks
  unfolding advance refresh_min_expiration
  tick-advance-le w ticks = ground (arith, (advance_from-IsProgress w ticks).tick)

  pub advance-zero : (w : TimingWheel S) → advance w 0 ≡ ([], w)
  unfolding advance
  advance-zero w = refl

  pub tick-nearest_wakeup : (w : TimingWheel S) → (nearest_wakeup w).1.current_tick ≡ w.current_tick
  unfolding nearest_wakeup
  tick-nearest_wakeup w = refl
