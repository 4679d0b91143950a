-- ===== src/Wheel.antt =====
-- `TimingWheel` of vibeio/src/timer.rs. Each method is a function from a wheel to a wheel; the proofs
-- are in the modules below. A waker is known by a number: two are equal where `will_wake` says so.
-- Ticks and generations are u64 and wrap (`add64`). The array `wheels` is a function of level and
-- slot; `Levels` shows that every index is in range.
mod Entry
pub mod Levels
pub mod Heap
pub mod Drain
pub mod Scan
pub mod Window
pub mod Invariant
pub mod Insert
pub mod Remove
pub mod Advance
pub mod Punctual
pub mod Nearest
pub mod Firing
pub mod History
pub mod Missed
mod Tests
pub use Entry.{TimerHandle, TimerEntry}
use Levels.{num_levels, calculate_level_and_slot}
use Heap.{push, refresh}
use vibeio.Prelude.{
  ℕ, zero, suc, ◌+◌, ◌-◌, ◌%◌, Bool, Option, none, some, List, [], ◌∷◌, ◌++◌, min, ltb, leb, ◌==◌,
  ◌&&◌, if◌then◌else◌, add64, sat_sub, remove_first,
}
use vibeio.Slab.{Slab}

pub record TimingWheel (S : Type 0) : Type 0 where
  pub entries : S
  pub wheels : ℕ → ℕ → List ℕ
  pub current_tick : ℕ
  pub generation_counter : ℕ
  pub min_expiration_tick : Option ℕ
  pub expiration_heap : List (ℕ × ℕ × ℕ)

abbrev pub slots_per_level : ℕ
slots_per_level = 64

-- `self.wheels[level][slot] = v`.
abbrev pub set_slot : (ℕ → ℕ → List ℕ) → ℕ → ℕ → List ℕ → ℕ → ℕ → List ℕ
set_slot wheels level slot v l s = if l == level && s == slot then v else wheels l s

-- `NonZeroU64::new`.
abbrev pub non_zero : Option ℕ → Option ℕ
non_zero none = none
non_zero (some tick) = if tick == 0 then none else some tick

abbrev pub update_min_on_insert : Option ℕ → ℕ → Option ℕ
update_min_on_insert none tick = some tick
update_min_on_insert (some least) tick = some (min least tick)

module _ {S : Type 0} ⦃slab : Slab S TimerEntry⦄ where
  unfoldable pub new : TimingWheel S
  new = record {
    entries = slab.empty;
    wheels = λ level slot. [];
    current_tick = 0;
    generation_counter = 0;
    min_expiration_tick = none;
    expiration_heap = [];
  }

  unfoldable pub is_empty : TimingWheel S → Bool
  is_empty w = slab.is_empty w.entries

  pub refresh_min_expiration : TimingWheel S → TimingWheel S
  refresh_min_expiration w =
      let (least, heap) = refresh (slab.get w.entries) w.expiration_heap in
      record w { min_expiration_tick = least; expiration_heap = heap }

  pub nearest_wakeup : TimingWheel S → Option ℕ × TimingWheel S
  unfolding refresh_min_expiration
  nearest_wakeup w = let w' = refresh_min_expiration w in (non_zero w'.min_expiration_tick, w')

  -- The entry that `insert` makes.
  abbrev pub new_entry : TimingWheel S → ℕ → ℕ → TimerEntry
  new_entry w waker expiration_tick =
      let delay = sat_sub expiration_tick w.current_tick in
      let (level, slot) = calculate_level_and_slot delay in
      record {
        waker = waker;
        expiration_tick = expiration_tick;
        generation = add64 w.generation_counter 1;
        level = level;
        slot = slot;
      }

  unfoldable pub insert : TimingWheel S → ℕ → ℕ → TimerHandle × TimingWheel S
  insert w waker expiration_tick =
      let entry = new_entry w waker expiration_tick in
      let (slab_index, entries) = slab.insert w.entries entry in
      (
        record { slab_index = slab_index; generation = entry.generation },
        record w {
          entries = entries;
          wheels =
              set_slot w.wheels entry.level entry.slot
                (w.wheels entry.level entry.slot ++ slab_index ∷ []);
          generation_counter = entry.generation;
          min_expiration_tick = update_min_on_insert w.min_expiration_tick expiration_tick;
          expiration_heap = push (expiration_tick, slab_index, entry.generation) w.expiration_heap;
        },
      )

  -- The body of `remove` for the entry that the handle's index leads to.
  pub remove_entry : TimingWheel S → TimerHandle → TimerEntry → TimingWheel S
  unfolding refresh_min_expiration
  remove_entry w handle entry =
      if entry.generation == handle.generation
      then refresh_min_expiration (record w {
        entries = slab.remove w.entries handle.slab_index;
        wheels =
            set_slot w.wheels entry.level entry.slot
              (remove_first handle.slab_index (w.wheels entry.level entry.slot));
      })
      else w

  pub remove : TimingWheel S → TimerHandle → TimingWheel S
  unfolding remove_entry
  remove w handle = elim (slab.get w.entries handle.slab_index) [
    | none ↦ w
    | some entry ↦ remove_entry w handle entry
  ]

  -- The two branches of the loops over a slot's timers, which are the same in `cascade_level` and
  -- `process_slot_at_level_0`: an expired timer is removed, any other is placed anew.
  pub expire_entry : ℕ → TimingWheel S → TimingWheel S
  expire_entry slab_index w = record w { entries = slab.remove w.entries slab_index }

  pub place_entry : ℕ → TimerEntry → TimingWheel S → TimingWheel S
  place_entry slab_index entry w =
      let (level, slot) = calculate_level_and_slot (entry.expiration_tick - w.current_tick) in
      record w {
        entries = slab.update w.entries slab_index (λ e. record e { level = level; slot = slot });
        wheels = set_slot w.wheels level slot (w.wheels level slot ++ slab_index ∷ []);
      }

  process_entry : ℕ → TimerEntry → TimingWheel S → List ℕ → TimingWheel S × List ℕ
  process_entry slab_index entry w expired =
      if leb entry.expiration_tick w.current_tick
      then (expire_entry slab_index w, expired ++ entry.waker ∷ [])
      else (place_entry slab_index entry w, expired)

  pub process_timer : ℕ → TimingWheel S × List ℕ → TimingWheel S × List ℕ
  unfolding process_entry
  process_timer slab_index (w, expired) = elim (slab.get w.entries slab_index) [
    | none ↦ (w, expired)
    | some entry ↦ process_entry slab_index entry w expired
  ]

  pub process_timers : List ℕ → TimingWheel S × List ℕ → TimingWheel S × List ℕ
  process_timers [] st = st
  process_timers (k ∷ ks) st = process_timers ks (process_timer k st)

  -- `std::mem::take` of a slot, and the loop over what was in it.
  pub process_slot : ℕ → ℕ → TimingWheel S × List ℕ → TimingWheel S × List ℕ
  process_slot level slot (w, expired) =
      process_timers (w.wheels level slot)
        (record w { wheels = set_slot w.wheels level slot [] }, expired)

  -- `for slot in first..first + count`.
  pub process_slots : ℕ → ℕ → ℕ → TimingWheel S × List ℕ → TimingWheel S × List ℕ
  process_slots level first zero st = st
  process_slots level first (suc count) st =
      process_slots level (suc first) count (process_slot level first st)

  pub cascade_level : ℕ → TimingWheel S × List ℕ → TimingWheel S × List ℕ
  cascade_level level st = process_slots level 0 slots_per_level st

  -- `for level in (1..=levels).rev()`.
  pub cascade_levels : ℕ → TimingWheel S × List ℕ → TimingWheel S × List ℕ
  cascade_levels zero st = st
  cascade_levels (suc level) st = cascade_levels level (cascade_level (suc level) st)

  pub cascade_all_levels : TimingWheel S × List ℕ → TimingWheel S × List ℕ
  cascade_all_levels st = cascade_levels (num_levels - 1) st

  -- The slots of level 0 from that of the old tick to that of the new one, in order.
  pub process_level_0 : ℕ → ℕ → ℕ → TimingWheel S × List ℕ → TimingWheel S × List ℕ
  process_level_0 start_slot end_slot ticks st =
      if leb slots_per_level ticks
      then process_slots 0 0 slots_per_level st
      else if leb start_slot end_slot
      then process_slots 0 start_slot (end_slot + 1 - start_slot) st
      else process_slots 0 0 (end_slot + 1)
          (process_slots 0 start_slot (slots_per_level - start_slot) st)

  -- The wheel with the new tick, after the cascade and the scan of level 0.
  pub advance_from : TimingWheel S → ℕ → TimingWheel S × List ℕ
  advance_from w ticks =
      let now = add64 w.current_tick ticks in
      process_level_0 (w.current_tick % slots_per_level) (now % slots_per_level) ticks
        (cascade_all_levels (record w { current_tick = now }, []))

  pub advance : TimingWheel S → ℕ → List ℕ × TimingWheel S
  advance w ticks =
      if ticks == 0
      then ([], w)
      else (let (w', expired) = advance_from w ticks in (expired, refresh_min_expiration w'))
