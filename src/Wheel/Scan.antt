-- ===== src/Wheel/Scan.antt =====
-- The loops of `advance` over slots and levels: which slots they clear of overdue timers.
use vibeio.Prelude.{
  ℕ, zero, suc, ◌+◌, ◌-◌, ◌≤◌, ◌<◌, inl, inr, List, [], ◌∷◌, arith, leb, ◌==◌, has-nil, Bool-cases,
  ==_iff,
}
use vibeio.Slab.{Slab}
use vibeio.Wheel.Drain.{
  IsPlaced, IsProgress, IsClear, process_timer-IsPlaced, process_timer-IsProgress,
  process_timer-IsClear,
}
use vibeio.Wheel.{
  TimingWheel, TimerEntry, process_timer, process_timers, process_slot, process_slots,
  cascade_level, cascade_levels, process_level_0, slots_per_level,
}

module _ {S : Type 0} ⦃slab : Slab S TimerEntry⦄ where
  -- What each timer's step and the taking of a slot keep, a slot's loop keeps.
  pub record IsStable {ℓ} (P : TimingWheel S × List ℕ → Type ℓ) : Type ℓ where
    pub take :
        (w : TimingWheel S) (wheels : ℕ → ℕ → List ℕ) (expired : List ℕ)
        → P (w, expired)
        → P (record w { wheels = wheels }, expired)
    pub step : (k : ℕ) (st : TimingWheel S × List ℕ) → P st → P (process_timer k st)

  pub record KeepsSlot {ℓ} (P : TimingWheel S × List ℕ → Type ℓ) : Type ℓ where
    pub at : (level slot : ℕ) (st : TimingWheel S × List ℕ) → P st → P (process_slot level slot st)

  module _ {ℓ} {P : TimingWheel S × List ℕ → Type ℓ} (stable : IsStable P) where
    process_timers_stable :
        (ks : List ℕ) (st : TimingWheel S × List ℕ) → P st → P (process_timers ks st)
    unfolding process_timers
    process_timers_stable [] st h = h
    process_timers_stable (k ∷ ks) st h = process_timers_stable ks _ (stable.step k st h)

    pub IsStable-KeepsSlot : KeepsSlot P
    unfolding process_slot
    IsStable-KeepsSlot = record {
      at = λ level slot st h. process_timers_stable _ _ (stable.take st.0 _ st.1 h);
    }

  -- What a slot's loop keeps, the loops over slots and levels keep.
  module _ {ℓ} {P : TimingWheel S × List ℕ → Type ℓ} (keep : KeepsSlot P) where
    pub process_slots_keep :
        (level first count : ℕ) (st : TimingWheel S × List ℕ)
        → P st
        → P (process_slots level first count st)
    unfolding process_slots
    process_slots_keep level first zero st h = h
    process_slots_keep level first (suc count) st h =
        process_slots_keep level (suc first) count _ (keep.at level first st h)

    pub cascade_levels_keep :
        (levels : ℕ) (st : TimingWheel S × List ℕ) → P st → P (cascade_levels levels st)
    unfolding cascade_levels cascade_level
    cascade_levels_keep zero st h = h
    cascade_levels_keep (suc level) st h =
        cascade_levels_keep level _ (process_slots_keep (suc level) 0 slots_per_level st h)

    pub process_level_0_keep :
        (start end ticks : ℕ) (st : TimingWheel S × List ℕ)
        → P st
        → P (process_level_0 start end ticks st)
    unfolding process_level_0
    process_level_0_keep start end ticks st h = elim (Bool-cases (leb slots_per_level ticks)) [
      | inl p ↦ rw p (process_slots_keep 0 0 slots_per_level st h)
      | inr p ↦ elim (Bool-cases (leb start end)) [
        | inl q ↦ rw (p, q) (process_slots_keep 0 start (end + 1 - start) st h)
        | inr q ↦
            rw (p, q)
              (process_slots_keep 0 0 (end + 1) _
                (process_slots_keep 0 start (slots_per_level - start) st h))
      ]
    ]

  -- The entries that are in no slot while the slot's loop runs are those that it still has to read.
  process_timers-IsPlaced :
      (ks : List ℕ) (st : TimingWheel S × List ℕ)
      → IsPlaced ks st.0
      → IsPlaced [] (process_timers ks st).0
  unfolding process_timers
  process_timers-IsPlaced [] st h = h
  process_timers-IsPlaced (k ∷ ks) st h =
      process_timers-IsPlaced ks _ (process_timer-IsPlaced k ks st.0 st.1 h)

  process_timers-IsClear :
      (ks : List ℕ) (level slot : ℕ) (st : TimingWheel S × List ℕ)
      → IsClear ks level slot st.0
      → IsClear [] level slot (process_timers ks st).0
  unfolding process_timers
  process_timers-IsClear [] level slot st h = h
  process_timers-IsClear (k ∷ ks) level slot st h =
      process_timers-IsClear ks level slot _ (process_timer-IsClear k ks level slot st.0 st.1 h)

  pub IsPlaced-KeepsSlot : KeepsSlot (λ st. IsPlaced [] st.0)
  unfolding process_slot
  IsPlaced-KeepsSlot = record {
    at = λ level slot st h.
        process_timers-IsPlaced _ _
          (record { at = λ k e p. ground (arith, h.at k e p, has-nil k) });
  }

  pub IsClear-KeepsSlot : (level slot : ℕ) → KeepsSlot (λ st. IsClear [] level slot st.0)
  IsClear-KeepsSlot level slot = IsStable-KeepsSlot (record {
    take = λ w wheels expired h. record { at = h.at };
    step = λ k st h.
        process_timer-IsClear k [] level slot st.0 st.1
          (record { at = λ j e p q r. ground (arith, h.at j e p q r, has-nil j) });
  })

  pub IsProgress-KeepsSlot : (w : TimingWheel S) → KeepsSlot (IsProgress w)
  IsProgress-KeepsSlot w = IsStable-KeepsSlot (record {
    take = λ v wheels expired h. record {
      tick = h.tick;
      counter = h.counter;
      heap = h.heap;
      origin = h.origin;
      fate = h.fate;
      sound = h.sound;
    };
    step = λ k st h. process_timer-IsProgress w k st.0 st.1 h;
  })

  -- A slot's loop leaves no overdue timer in the slot.
  process_slot_clears :
      (level slot : ℕ) (st : TimingWheel S × List ℕ)
      → IsPlaced [] st.0
      → IsClear [] level slot (process_slot level slot st).0
  unfolding process_slot
  process_slot_clears level slot st h =
      process_timers-IsClear _ level slot _
        (record { at = λ k e p q r. ground (arith, h.at k e p, has-nil k) })

  pub process_slots-IsClear :
      (level first count slot : ℕ) (st : TimingWheel S × List ℕ)
      → IsPlaced [] st.0
      → first ≤ slot
      → slot < first + count
      → IsClear [] level slot (process_slots level first count st).0
  unfolding process_slots
  process_slots-IsClear level first zero slot st h p q = absurd (omega arith)
  process_slots-IsClear level first (suc count) slot st h p q = elim (Bool-cases (first == slot)) [
    | inl e ↦
        process_slots_keep (IsClear-KeepsSlot level slot) level (suc first) count _
          (rw (← (==_iff first slot).0 e) (process_slot_clears level first st h))
    | inr e ↦
        process_slots-IsClear level (suc first) count slot _
          (IsPlaced-KeepsSlot.at level first st h) (ground arith) (omega arith)
  ]

  pub cascade_levels-IsClear :
      (levels level slot : ℕ) (st : TimingWheel S × List ℕ)
      → IsPlaced [] st.0
      → 0 < level
      → level ≤ levels
      → slot < 64
      → IsClear [] level slot (cascade_levels levels st).0
  unfolding cascade_levels cascade_level
  cascade_levels-IsClear zero level slot st h p q r = absurd (omega arith)
  cascade_levels-IsClear (suc n) level slot st h p q r = elim (Bool-cases (suc n == level)) [
    | inl e ↦ cascade_levels_keep (IsClear-KeepsSlot level slot) n _ (
        rw (← (==_iff (suc n) level).0 e)
          (process_slots-IsClear (suc n) 0 slots_per_level slot st h (omega arith) (omega arith)))
    | inr e ↦
        cascade_levels-IsClear n level slot _
          (process_slots_keep IsPlaced-KeepsSlot (suc n) 0 slots_per_level st h) p (ground arith) r
  ]
