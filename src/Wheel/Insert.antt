-- ===== src/Wheel/Insert.antt =====
-- `insert`: the new timer is found under its handle, and the others stay as they are.
use vibeio.Prelude.{
  ℕ, ◌+◌, ◌-◌, ◌<◌, ◌^◌, ◌≡◌, refl, ◌||◌, ◌&&◌, none, some, [], ◌∷◌, arith, ◌==◌, if◌then◌else◌,
  has, has-append, has-cons, has-nil, add64, All,
}
use vibeio.Slab.{Slab}
use vibeio.Wheel.Levels.{level_in_range}
use vibeio.Wheel.Heap.{Item, push, All-push, All-mono, has_item-push, push-IsSorted}
use vibeio.Wheel.Invariant.{IsWellFormed, IsSound}
use vibeio.Wheel.{TimingWheel, TimerEntry, new_entry, insert}

module _ {S : Type 0} ⦃slab : Slab S TimerEntry⦄ where
  pub get-insert :
      (w : TimingWheel S) (waker tick k : ℕ)
      → slab.get (insert w waker tick).1.entries k ≡ (
          if (insert w waker tick).0.slab_index == k
          then some (new_entry w waker tick)
          else slab.get w.entries k)
  unfolding insert
  get-insert w waker tick k = slab.get-insert w.entries (new_entry w waker tick) k

  pub generation-insert :
      (w : TimingWheel S) (waker tick : ℕ)
      → (insert w waker tick).0.generation ≡ add64 w.generation_counter 1
  unfolding insert
  generation-insert w waker tick = refl

  pub tick-insert :
      (w : TimingWheel S) (waker tick : ℕ) → (insert w waker tick).1.current_tick ≡ w.current_tick
  unfolding insert
  tick-insert w waker tick = refl

  pub insert_fresh :
      (w : TimingWheel S) (waker tick : ℕ)
      → slab.get w.entries (insert w waker tick).0.slab_index ≡ none
  unfolding insert
  insert_fresh w waker tick = slab.insert_vacant w.entries (new_entry w waker tick)

  has-insert :
      (w : TimingWheel S) (waker tick k level slot : ℕ)
      → has k ((insert w waker tick).1.wheels level slot) ≡ (
          has k (w.wheels level slot)
          || (level == (new_entry w waker tick).level
              && slot == (new_entry w waker tick).slot
              && (insert w waker tick).0.slab_index == k))
  unfolding insert
  has-insert w waker tick k level slot =
      let key = (slab.insert w.entries (new_entry w waker tick)).0 in
      ground (arith, has-append k (w.wheels level slot) (key ∷ []), has-cons k key [], has-nil k)

  heap-insert :
      (w : TimingWheel S) (waker tick : ℕ)
      → (insert w waker tick).1.expiration_heap
        ≡ push
            (tick, (insert w waker tick).0.slab_index, add64 w.generation_counter 1)
            w.expiration_heap
  unfolding insert
  heap-insert w waker tick = refl

  counter-insert :
      (w : TimingWheel S) (waker tick : ℕ)
      → (insert w waker tick).1.generation_counter ≡ add64 w.generation_counter 1
  unfolding insert
  counter-insert w waker tick = refl

  -- The heap's items stay sound, since no old item has the new generation.
  insert-IsSound :
      (w : TimingWheel S) (waker tick : ℕ)
      → w.generation_counter + 1 < 2 ^ 64
      → All (IsSound (slab.get w.entries) w.generation_counter) w.expiration_heap
      → All
          (IsSound (slab.get (insert w waker tick).1.entries) (add64 w.generation_counter 1))
          (insert w waker tick).1.expiration_heap
  insert-IsSound w waker tick room h = rw heap-insert (
      All-push _ _ w.expiration_heap
        (
          omega arith,
          λ e p q. ground (arith, get-insert w waker tick (insert w waker tick).0.slab_index),
        )
        (All-mono older w.expiration_heap h))
    where
      older :
          (x : Item)
          → IsSound (slab.get w.entries) w.generation_counter x
          → IsSound (slab.get (insert w waker tick).1.entries) (add64 w.generation_counter 1) x
      older (t, i, g) o = (omega arith, λ e p q. ground (arith, get-insert w waker tick i, o.1 e))

  -- A timer that is set for a later tick keeps the wheel well formed.
  pub insert-IsWellFormed :
      (w : TimingWheel S) (waker tick : ℕ)
      → IsWellFormed w
      → w.current_tick < tick
      → w.generation_counter + 1 < 2 ^ 64
      → IsWellFormed (insert w waker tick).1
  insert-IsWellFormed w waker tick h later room =
      let key = (insert w waker tick).0.slab_index in
      record {
        placed = record {
          at = λ k e p. ground (
            arith,
            get-insert w waker tick k,
            has-nil k,
            has-insert w waker tick k e.level e.slot,
            h.placed.at k e,
            level_in_range (tick - w.current_tick),
          );
        };
        positive = λ k e p. ground (arith, get-insert w waker tick k, h.positive k e);
        timely =
            λ k e p q. unfold insert in ground (arith, get-insert w waker tick k, h.timely k e);
        covered = λ k e p. ground (
          arith,
          get-insert w waker tick k,
          heap-insert w waker tick,
          h.covered k e,
          has_item-push e.expiration_tick k e.generation tick key (add64 w.generation_counter 1)
              w.expiration_heap,
        );
        sound = rw counter-insert (insert-IsSound w waker tick room h.sound);
        sorted = unfold insert in push-IsSorted _ w.expiration_heap h.sorted;
      }
