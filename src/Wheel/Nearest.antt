-- ===== src/Wheel/Nearest.antt =====
-- `nearest_wakeup`: the least tick of the timers in the wheel.
use vibeio.Prelude.{
  ℕ, ◌≤◌, ◌≡◌, ◌⊎◌, inl, inr, refl, ap, true, Option, none, some, List, ◌∷◌, arith, Option-cases,
  All,
}
use vibeio.Slab.{Slab}
use vibeio.Wheel.Heap.{
  Item, IsSorted, has_item, refresh, refresh_least, not-has_item-nil, head-le, refresh-IsSorted,
  has_item-refresh, All-refresh,
}
use vibeio.Wheel.Invariant.{refresh-IsWellFormed, IsWellFormed, IsSound}
use mathlib.Core.Path.{subst}
use vibeio.Wheel.{is_empty, TimingWheel, TimerEntry, refresh_min_expiration, nearest_wakeup}

module _ {S : Type 0} ⦃slab : Slab S TimerEntry⦄ where
  -- The items that `refresh` leaves.
  abbrev left : TimingWheel S → List Item
  left w = (refresh (slab.get w.entries) w.expiration_heap).1

  covered_left :
      (w : TimingWheel S) (k : ℕ) (e : TimerEntry)
      → IsWellFormed w
      → slab.get w.entries k ≡ some e
      → has_item (e.expiration_tick, k, e.generation) (left w) ≡ true
  covered_left w k e h p =
      has_item-refresh (slab.get w.entries) e.expiration_tick k e.generation e w.expiration_heap p
        refl (h.covered k e p)

  least :
      (w : TimingWheel S) (i : ℕ) (e : TimerEntry) (j : ℕ) (f : TimerEntry)
      → IsWellFormed w
      → slab.get w.entries i ≡ some e
      → slab.get w.entries j ≡ some f
      → (t g : ℕ) (rest : List Item) → e.generation ≡ g
      → refresh (slab.get w.entries) w.expiration_heap ≡ (some e.expiration_tick, (t, i, g) ∷ rest)
      → e.expiration_tick ≤ f.expiration_tick
  least w i e j f h p s t g rest q r =
      let left_is : left w ≡ (t, i, g) ∷ rest = ap (λ (l : Option ℕ × List Item). l.1) r in
      let sound =
        All-refresh (slab.get w.entries) (IsSound (slab.get w.entries) w.generation_counter)
          w.expiration_heap h.sound in
      let sorted = refresh-IsSorted (slab.get w.entries) w.expiration_heap h.sorted in
      let first =
        (subst (All (IsSound (slab.get w.entries) w.generation_counter)) left_is sound).0 in
      let below =
        head-le t i g f.expiration_tick j f.generation rest (subst IsSorted left_is sorted) (
          subst (λ (l : List Item). has_item (f.expiration_tick, j, f.generation) l ≡ true) left_is
            (covered_left w j f h s)) in
      omega (arith, first.1 e p q)

  -- The answer of a well formed wheel is nothing only when it has no timer, and else the least tick
  -- of its timers.
  pub nearest_wakeup_least :
      (w : TimingWheel S)
      → IsWellFormed w
      → (((nearest_wakeup w).0 ≡ none) × ((k : ℕ) → slab.get w.entries k ≡ none))
        ⊎ ((k : ℕ) × (e : TimerEntry) × (slab.get w.entries k ≡ some e)
            × ((nearest_wakeup w).0 ≡ some e.expiration_tick)
            × ((j : ℕ) (f : TimerEntry)
                → slab.get w.entries j ≡ some f
                → e.expiration_tick ≤ f.expiration_tick))
  unfolding nearest_wakeup
  nearest_wakeup_least w h = elim (refresh_least (slab.get w.entries) w.expiration_heap) [
    | inl p ↦ inl (
      rw (p, refresh_min_expiration),
      λ k. elim (Option-cases (slab.get w.entries k)) [
        | inl vacant ↦ vacant
        | inr (e, q) ↦ absurd (
            not-has_item-nil e.expiration_tick k e.generation (
              subst
                (λ (l : Option ℕ × List Item).
                  has_item (e.expiration_tick, k, e.generation) l.1 ≡ true)
                p (covered_left w k e h q)))
      ],
    )
    | inr (t, i, g, rest, e, p, q, r) ↦ inr (
      i,
      e,
      p,
      unfold refresh_min_expiration in ground (arith, r, h.positive i e p),
      λ j f s. least w i e j f h p s t g rest q r,
    )
  ]

  pub entries-nearest_wakeup : (w : TimingWheel S) → (nearest_wakeup w).1.entries ≡ w.entries
  unfolding nearest_wakeup refresh_min_expiration
  entries-nearest_wakeup w = refl

  pub nearest_wakeup-IsWellFormed :
      (w : TimingWheel S) → IsWellFormed w → IsWellFormed (nearest_wakeup w).1
  unfolding nearest_wakeup
  nearest_wakeup-IsWellFormed w h = refresh-IsWellFormed w h

  pub is_empty-none :
      (w : TimingWheel S) → is_empty w ≡ true → (k : ℕ) → slab.get w.entries k ≡ none
  unfolding is_empty
  is_empty-none w h = (slab.is_empty_iff w.entries).0 h
