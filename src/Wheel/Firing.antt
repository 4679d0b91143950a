-- ===== src/Wheel/Firing.antt =====
-- Which wakers `advance` returns, and what becomes of the timers.
use vibeio.Prelude.{
  ℕ, ◌+◌, ◌≤◌, ◌<◌, ◌^◌, ◌≡◌, ◌⊎◌, inl, inr, refl, true, false, none, some, arith, ◌==◌, has,
  has-nil, Bool-cases,
}
use vibeio.Slab.{Slab}
use vibeio.Wheel.Drain.{Same}
use vibeio.Wheel.Invariant.{IsWellFormed}
use vibeio.Wheel.Advance.{advance_from-IsProgress, advance_from-IsClear}
use vibeio.Wheel.{TimingWheel, TimerEntry, refresh_min_expiration, advance, advance_from}

module _ {S : Type 0} ⦃slab : Slab S TimerEntry⦄ where
  -- No timer fires early: each waker that `advance` returns, where the new tick is less than 2 ^
  -- 64, is that of a timer of the wheel whose tick is not after the new tick.
  pub advance_never_early :
      (w : TimingWheel S) (ticks x : ℕ)
      → w.current_tick + ticks < 2 ^ 64
      → has x (advance w ticks).0 ≡ true
      → (k : ℕ) × (e : TimerEntry) × (slab.get w.entries k ≡ some e)
        × (e.waker ≡ x)
        × (e.expiration_tick ≤ w.current_tick + ticks)
  unfolding advance
  advance_never_early w ticks x room h = elim (Bool-cases (ticks == 0)) [
    | inl z ↦ ground (arith, h, has-nil x)
    | inr z ↦
        let fired : has x (advance_from w ticks).1 ≡ true = ground arith in
        let (k, e, p, q, due) = (advance_from-IsProgress w ticks).sound x fired in
        (k, e, p, q, omega arith)
  ]

  -- No timer is lost: after `advance`, whose new tick is less than 2 ^ 64, a timer of the wheel has
  -- fired and was due, or it is still in the wheel with its waker, tick and generation.
  pub advance_fate :
      (w : TimingWheel S) (ticks k : ℕ) (e : TimerEntry)
      → w.current_tick + ticks < 2 ^ 64
      → slab.get w.entries k ≡ some e
      → ((slab.get (advance w ticks).1.entries k ≡ none)
          × (e.expiration_tick ≤ w.current_tick + ticks)
          × (has e.waker (advance w ticks).0 ≡ true))
        ⊎ ((f : TimerEntry) × (slab.get (advance w ticks).1.entries k ≡ some f) × Same e f)
  unfolding advance refresh_min_expiration
  advance_fate w ticks k e room h = elim (Bool-cases (ticks == 0)) [
    | inl z ↦ rw z (inr (e, h, (refl, refl, refl)))
    | inr z ↦ rw z (elim ((advance_from-IsProgress w ticks).fate k e h) [
      | inl (gone, due, fired) ↦ inl (gone, omega arith, fired)
      | inr kept ↦ inr kept
    ])
  ]

  -- Above level 0 the timers of a well formed wheel are on time: one that is due at the new tick,
  -- which is later than the old one and less than 2 ^ 64, fires.
  pub advance_fires_upper :
      (w : TimingWheel S) (ticks k : ℕ) (e : TimerEntry)
      → IsWellFormed w
      → w.current_tick + ticks < 2 ^ 64
      → 0 < ticks
      → slab.get w.entries k ≡ some e
      → 0 < e.level
      → e.expiration_tick ≤ w.current_tick + ticks
      → (slab.get (advance w ticks).1.entries k ≡ none) × (has e.waker (advance w ticks).0 ≡ true)
  unfolding advance refresh_min_expiration
  advance_fires_upper w ticks k e h room later p upper due =
      let made = advance_from-IsProgress w ticks in
      let moves : (ticks == 0) ≡ false = ground arith in
      rw moves (elim (made.fate k e p) [
        | inl (gone, _, fired) ↦ (gone, fired)
        | inr (f, q, same) ↦ elim (made.origin k f q) [
          | inl r ↦
              let place = h.placed.at k e p in
              let clear =
                (advance_from-IsClear w ticks e.level e.slot h.placed upper place.0 place.1).at k f
                  q in
              ground (arith, clear, has-nil k, made.tick)
          | inr (o, r, s, ahead) ↦ absurd (omega arith)
        ]
      ])
