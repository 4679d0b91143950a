-- ===== src/Wheel/Window.antt =====
-- The scan of level 0 in `advance`: the slots of the ticks from the old one to the new one.
use vibeio.Prelude.{ℕ, ◌+◌, ◌-◌, ◌≤◌, ◌%◌, inl, inr, List, [], arith, leb, Bool-cases}
use vibeio.Slab.{Slab}
use vibeio.Wheel.Drain.{IsPlaced, IsClear}
use vibeio.Wheel.Scan.{
  IsPlaced-KeepsSlot, IsClear-KeepsSlot, process_slots_keep, process_slots-IsClear,
}
use vibeio.Wheel.{TimingWheel, TimerEntry, process_level_0, slots_per_level}

module _ {S : Type 0} ⦃slab : Slab S TimerEntry⦄ where
  pub process_level_0-IsClear :
      (t ticks tau : ℕ) (st : TimingWheel S × List ℕ)
      → IsPlaced [] st.0
      → t ≤ tau
      → tau ≤ t + ticks
      → IsClear [] 0 (tau % 64) (process_level_0 (t % 64) ((t + ticks) % 64) ticks st).0
  unfolding process_level_0
  process_level_0-IsClear t ticks tau st h p q = elim (Bool-cases (leb slots_per_level ticks)) [
    | inl r ↦
        rw r (process_slots-IsClear 0 0 slots_per_level (tau % 64) st h (omega arith) (omega arith))
    | inr r ↦ elim (Bool-cases (leb (t % 64) ((t + ticks) % 64))) [
      | inl o ↦
          rw (r, o)
            (process_slots-IsClear 0 (t % 64) ((t + ticks) % 64 + 1 - t % 64) (tau % 64) st h
              (ground arith) (ground arith))
      | inr o ↦ elim (Bool-cases (leb (t % 64) (tau % 64))) [
        | inl u ↦
            rw (r, o)
              (process_slots_keep (IsClear-KeepsSlot 0 (tau % 64)) 0 0 ((t + ticks) % 64 + 1) _ (
                process_slots-IsClear 0 (t % 64) (slots_per_level - t % 64) (tau % 64) st h
                  (ground arith) (ground arith)))
        | inr u ↦
            rw (r, o)
              (process_slots-IsClear 0 0 ((t + ticks) % 64 + 1) (tau % 64) _
                (process_slots_keep IsPlaced-KeepsSlot 0 (t % 64) (slots_per_level - t % 64) st h)
                (omega arith) (ground arith))
      ]
    ]
  ]
