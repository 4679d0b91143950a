-- ===== src/Wheel/Invariant.antt =====
-- What holds of the wheel between any two calls of its methods.
use vibeio.Prelude.{ℕ, ◌+◌, ◌-◌, ◌≤◌, ◌<◌, ◌%◌, ◌≡◌, refl, true, Option, some, [], All}
use vibeio.Slab.{Slab}
use vibeio.Wheel.Drain.{IsPlaced}
use vibeio.Wheel.Heap.{Item, IsSorted, has_item, All-refresh, refresh-IsSorted, has_item-refresh}
use vibeio.Wheel.{TimingWheel, TimerEntry, new, refresh_min_expiration}

-- The first tick after `p` at which level 0 comes by slot `slot`.
abbrev pub next_scan : ℕ → ℕ → ℕ
next_scan p slot = p + 1 + (slot + 64 - (p + 1) % 64) % 64

-- An item of the heap that leads to a live entry of its generation names that entry's tick.
abbrev pub IsSound : (ℕ → Option TimerEntry) → ℕ → Item → Type 0
IsSound get counter (tick, idx, gen) =
    (gen ≤ counter)
    × ((e : TimerEntry) → get idx ≡ some e → e.generation ≡ gen → e.expiration_tick ≡ tick)

module _ {S : Type 0} ⦃slab : Slab S TimerEntry⦄ where
  pub record IsWellFormed (w : TimingWheel S) : Type 0 where
    -- Live entries stand in their slots.
    pub placed : IsPlaced [] w
    -- No timer expires at tick 0, which `nearest_wakeup` could not tell from no timer.
    pub positive : (k : ℕ) (e : TimerEntry) → slab.get w.entries k ≡ some e → 0 < e.expiration_tick
    -- A timer that is overdue waits at level 0 for the next scan of its slot after the tick `p` at
    -- which it was put there.
    pub timely :
        (k : ℕ) (e : TimerEntry)
        → slab.get w.entries k ≡ some e
        → e.expiration_tick ≤ w.current_tick
        → (e.level ≡ 0) × (p : ℕ) × (p ≤ e.expiration_tick) × (w.current_tick < next_scan p e.slot)
    -- The heap has every live timer, in the order of the ticks.
    pub covered :
        (k : ℕ) (e : TimerEntry)
        → slab.get w.entries k ≡ some e
        → has_item (e.expiration_tick, k, e.generation) w.expiration_heap ≡ true
    pub sound : All (IsSound (slab.get w.entries) w.generation_counter) w.expiration_heap
    pub sorted : IsSorted w.expiration_heap

  pub new-IsWellFormed : IsWellFormed new
  unfolding new
  new-IsWellFormed = record {
    placed = record { at = λ k e p. cc (slab.get-empty k) };
    positive = λ k e p. cc (slab.get-empty k);
    timely = λ k e p q. cc (slab.get-empty k);
    covered = λ k e p. cc (slab.get-empty k);
    sound = tt;
    sorted = tt;
  }

  pub refresh-IsWellFormed :
      (w : TimingWheel S) → IsWellFormed w → IsWellFormed (refresh_min_expiration w)
  unfolding refresh_min_expiration
  refresh-IsWellFormed w h = record {
    placed = record { at = h.placed.at };
    positive = h.positive;
    timely = h.timely;
    covered = λ k e p.
        has_item-refresh (slab.get w.entries) e.expiration_tick k e.generation e w.expiration_heap p
          refl (h.covered k e p);
    sound =
        All-refresh (slab.get w.entries) (IsSound (slab.get w.entries) w.generation_counter)
          w.expiration_heap h.sound;
    sorted = refresh-IsSorted (slab.get w.entries) w.expiration_heap h.sorted;
  }
