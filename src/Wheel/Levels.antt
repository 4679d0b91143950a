-- ===== src/Wheel/Levels.antt =====
-- `calculate_level_and_slot` of vibeio/src/timer.rs: the level and the slot for a delay.
use vibeio.Prelude.{
  ℕ, zero, suc, ◌+◌, ◌-◌, ◌*◌, ◌/◌, ◌%◌, ◌^◌, ◌≤◌, ◌<◌, ◌≡◌, ◌⊎◌, arith, leb, ◌==◌, ◌||◌,
  if◌then◌else◌,
}

abbrev pub num_levels : ℕ
num_levels = 7

-- `delay >> (6 * level) & 63`.
abbrev slot_at : ℕ → ℕ → ℕ
slot_at level delay = delay / 2 ^ (6 * level) % 64

-- The loop from `level` over the `left` levels that are still to try. Behind the loop stands the
-- fallback to the top level.
level_loop : ℕ → ℕ → ℕ → ℕ × ℕ
level_loop zero level delay = (num_levels - 1, slot_at (num_levels - 1) delay)
level_loop (suc left) level delay =
    let next = level_loop left (level + 1) delay in
    if level == num_levels - 1
    then (level, slot_at level delay)
    else if leb delay (64 * 2 ^ (6 * level) - 1) || level == num_levels - 1
    then (level, slot_at level delay)
    else next

unfoldable pub calculate_level_and_slot : ℕ → ℕ × ℕ
unfolding level_loop
calculate_level_and_slot delay = level_loop num_levels 0 delay

-- The array accesses `wheels[level][slot]` are in range.
pub level_in_range :
    (delay : ℕ)
    → ((calculate_level_and_slot delay).0 < 7) × ((calculate_level_and_slot delay).1 < 64)
unfolding calculate_level_and_slot
level_in_range delay = ground arith

-- Level 0 takes the delays below 64, each in the slot of its own number.
pub level_zero :
    (delay : ℕ)
    → (calculate_level_and_slot delay).0 ≡ 0
    → (delay < 64) × ((calculate_level_and_slot delay).1 ≡ delay)
unfolding calculate_level_and_slot
level_zero delay h = ground arith

-- The level is the one whose span holds the delay: 64 ^ level ≤ delay < 64 ^ (level + 1), without the
-- lower bound at the bottom and the upper bound at the top; the slot is the delay in units of the
-- level, modulo 64.
pub level_spans_delay :
    (delay : ℕ)
    → let (level, slot) = calculate_level_and_slot delay in
      ((level ≡ 0) ⊎ (64 ^ level ≤ delay))
      × ((level ≡ 6) ⊎ (delay < 64 ^ (level + 1)))
      × (slot ≡ delay / 64 ^ level % 64)
unfolding calculate_level_and_slot
level_spans_delay delay = ground arith

pub level_below_64 : (delay : ℕ) → delay < 64 → calculate_level_and_slot delay ≡ (0, delay)
unfolding calculate_level_and_slot
level_below_64 delay h = ground arith
