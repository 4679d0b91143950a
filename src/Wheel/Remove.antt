-- ===== src/Wheel/Remove.antt =====
-- `remove`: a handle cancels its own timer and nothing else.
use vibeio.Prelude.{
  ℕ, ◌+◌, ◌≤◌, ◌<◌, ◌^◌, ◌≡◌, ◌≢◌, inl, inr, Bool, false, ◌&&◌, none, some, arith, ◌==◌,
  if◌then◌else◌, has-nil, Option-cases, Bool-cases, remove_first, has-remove_first_ne,
}
use vibeio.Slab.{Slab}
use vibeio.Wheel.Heap.{Item, All-mono, All-has_item}
use vibeio.Wheel.Invariant.{IsWellFormed, IsSound, refresh-IsWellFormed}
use vibeio.Wheel.Insert.{get-insert, generation-insert, insert_fresh}
use vibeio.Wheel.{
  TimingWheel, TimerEntry, TimerHandle, new_entry, set_slot, insert, remove, refresh_min_expiration,
}

module _ {S : Type 0} ⦃slab : Slab S TimerEntry⦄ where
  -- Whether the handle's index leads to a live entry of the handle's generation.
  pub is_live : TimingWheel S → TimerHandle → Bool
  is_live w handle = elim (slab.get w.entries handle.slab_index) [
    | none ↦ false
    | some entry ↦ entry.generation == handle.generation
  ]

  pub remove_stale :
      (w : TimingWheel S) (handle : TimerHandle) → is_live w handle ≡ false → remove w handle ≡ w
  unfolding is_live remove
  remove_stale w handle h = ground arith

  -- Removal takes out the entry of a live handle, and leaves every other entry as it is.
  pub get-remove :
      (w : TimingWheel S) (handle : TimerHandle) (k : ℕ)
      → slab.get (remove w handle).entries k
        ≡ (if handle.slab_index == k && is_live w handle then none else slab.get w.entries k)
  unfolding is_live remove refresh_min_expiration
  get-remove w handle k = ground (arith, slab.get-remove w.entries handle.slab_index k)

  -- The wheel before the heap is refreshed.
  abbrev removed : TimingWheel S → TimerHandle → TimerEntry → TimingWheel S
  removed w handle entry = record w {
    entries = slab.remove w.entries handle.slab_index;
    wheels =
        set_slot w.wheels entry.level entry.slot
          (remove_first handle.slab_index (w.wheels entry.level entry.slot));
  }

  removed-IsWellFormed :
      (w : TimingWheel S) (handle : TimerHandle) (entry : TimerEntry)
      → IsWellFormed w
      → IsWellFormed (removed w handle entry)
  removed-IsWellFormed w handle entry h = record {
    placed = record {
      at = λ k e p. ground (
        arith,
        still k e p,
        has-nil k,
        h.placed.at k e,
        has-remove_first_ne k handle.slab_index (w.wheels entry.level entry.slot),
      );
    };
    positive = λ k e p. h.positive k e (still k e p).1;
    timely = λ k e p q. h.timely k e (still k e p).1 q;
    covered = λ k e p. h.covered k e (still k e p).1;
    sound = All-mono sounds w.expiration_heap h.sound;
    sorted = h.sorted;
  }
    where
      still :
          (k : ℕ) (e : TimerEntry)
          → slab.get (slab.remove w.entries handle.slab_index) k ≡ some e
          → (k ≢ handle.slab_index) × (slab.get w.entries k ≡ some e)
      still k e p = (
        λ q. ground (arith, slab.get-remove w.entries handle.slab_index k),
        ground (arith, slab.get-remove w.entries handle.slab_index k),
      )

      sounds :
          (x : Item)
          → IsSound (slab.get w.entries) w.generation_counter x
          → IsSound (slab.get (slab.remove w.entries handle.slab_index)) w.generation_counter x
      sounds (t, i, g) o = (o.0, λ e p q. o.1 e (still i e p).1 q)

  pub remove-IsWellFormed :
      (w : TimingWheel S) (handle : TimerHandle) → IsWellFormed w → IsWellFormed (remove w handle)
  unfolding remove
  remove-IsWellFormed w handle h = elim (Option-cases (slab.get w.entries handle.slab_index)) [
    | inl p ↦ rw (p, remove) h
    | inr (e, p) ↦ elim (Bool-cases (e.generation == handle.generation)) [
      | inl q ↦ rw (p, remove, q) (refresh-IsWellFormed _ (removed-IsWellFormed w handle e h))
      | inr q ↦ rw (p, remove, q) h
    ]
  ]

  -- Every live entry is of a generation that has been given out.
  pub generation-le :
      (w : TimingWheel S) (k : ℕ) (e : TimerEntry)
      → IsWellFormed w
      → slab.get w.entries k ≡ some e
      → e.generation ≤ w.generation_counter
  generation-le w k e h p =
      (All-has_item (IsSound (slab.get w.entries) w.generation_counter) e.expiration_tick k
        e.generation w.expiration_heap h.sound (h.covered k e p)).0

  -- Cancelling a timer that was just set leaves every entry as it was before.
  pub remove-insert :
      (w : TimingWheel S) (waker tick k : ℕ)
      → slab.get (remove (insert w waker tick).1 (insert w waker tick).0).entries k
        ≡ slab.get w.entries k
  unfolding is_live
  remove-insert w waker tick k =
      let (handle, w') = insert w waker tick in
      ground (
        arith,
        get-remove w' handle k,
        get-insert w waker tick k,
        get-insert w waker tick handle.slab_index,
        insert_fresh w waker tick,
        generation-insert w waker tick,
      )

  -- A handle of a generation that was given out before cannot cancel the new timer, also if the
  -- slab has given the new timer the old one's index, as long as the generations stay below 2 ^ 64.
  pub remove_old_handle :
      (w : TimingWheel S) (waker tick : ℕ) (old : TimerHandle)
      → w.generation_counter + 1 < 2 ^ 64
      → old.generation ≤ w.generation_counter
      → slab.get (remove (insert w waker tick).1 old).entries (insert w waker tick).0.slab_index
        ≡ some (new_entry w waker tick)
  unfolding is_live
  remove_old_handle w waker tick old room h =
      let (handle, w') = insert w waker tick in
      ground (
        arith,
        get-remove w' old handle.slab_index,
        get-insert w waker tick handle.slab_index,
        get-insert w waker tick old.slab_index,
      )
