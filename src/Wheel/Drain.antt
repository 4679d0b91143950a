-- ===== src/Wheel/Drain.antt =====
-- What the loops of `advance` do to the entries, one timer and one slot at a time.
use vibeio.Prelude.{
  ℕ, ◌-◌, ◌≤◌, ◌<◌, ◌≡◌, ◌⊎◌, inl, inr, refl, true, ◌||◌, ◌&&◌, none, some, List, [], ◌∷◌, ◌++◌,
  arith, leb, ◌==◌, if◌then◌else◌, has, has-append, has-cons, has-nil, Option-cases, Bool-cases,
}
use vibeio.Slab.{Slab}
use vibeio.Wheel.Levels.{calculate_level_and_slot, level_in_range}
use vibeio.Wheel.{TimingWheel, TimerEntry, expire_entry, place_entry, process_timer}

-- `entry` after a move to the level and slot for what is left of its delay at tick `now`.
abbrev pub moved : ℕ → TimerEntry → TimerEntry
moved now e = record e {
  level = (calculate_level_and_slot (e.expiration_tick - now)).0;
  slot = (calculate_level_and_slot (e.expiration_tick - now)).1;
}

module _ {S : Type 0} ⦃slab : Slab S TimerEntry⦄ where
  -- Every live entry stands in the slot that it names, or still waits in `pending`.
  pub record IsPlaced (pending : List ℕ) (w : TimingWheel S) : Type 0 where
    pub at :
        (k : ℕ) (e : TimerEntry)
        → slab.get w.entries k ≡ some e
        → (e.level < 7)
          × (e.slot < 64)
          × ((has k pending || has k (w.wheels e.level e.slot)) ≡ true)

  pub get-expire_entry :
      (k j : ℕ) (w : TimingWheel S)
      → slab.get (expire_entry k w).entries j ≡ (if k == j then none else slab.get w.entries j)
  unfolding expire_entry
  get-expire_entry k j w = slab.get-remove w.entries k j

  pub get-place_entry :
      (k j : ℕ) (e : TimerEntry) (w : TimingWheel S)
      → slab.get w.entries k ≡ some e
      → slab.get (place_entry k e w).entries j
        ≡ (if k == j then some (moved w.current_tick e) else slab.get w.entries j)
  unfolding place_entry
  get-place_entry k j e w h = elim (Bool-cases (k == j)) [
    | inl p ↦ rw (slab.get-update w.entries k _ j, p, same p)
    | inr p ↦ rw (slab.get-update w.entries k _ j, p)
  ]
    where
      same : k == j ≡ true → slab.get w.entries j ≡ some e
      same p = ground (arith, h)

  has-place_entry :
      (k j : ℕ) (e : TimerEntry) (w : TimingWheel S) (level slot : ℕ)
      → has j ((place_entry k e w).wheels level slot) ≡ (
          has j (w.wheels level slot)
          || (level == (moved w.current_tick e).level
              && slot == (moved w.current_tick e).slot
              && k == j))
  unfolding place_entry
  has-place_entry k j e w level slot =
      ground (arith, has-append j (w.wheels level slot) (k ∷ []), has-cons j k [], has-nil j)

  pub process_timer_cases {ℓ} :
      (P : TimingWheel S × List ℕ → Type ℓ) (k : ℕ) (w : TimingWheel S) (expired : List ℕ)
      → (slab.get w.entries k ≡ none → P (w, expired))
      → ((e : TimerEntry)
          → slab.get w.entries k ≡ some e
          → e.expiration_tick ≤ w.current_tick
          → P (expire_entry k w, expired ++ e.waker ∷ []))
      → ((e : TimerEntry)
          → slab.get w.entries k ≡ some e
          → w.current_tick < e.expiration_tick
          → P (place_entry k e w, expired))
      → P (process_timer k (w, expired))
  unfolding process_timer
  process_timer_cases P k w expired vacant due ahead = elim (Option-cases (slab.get w.entries k)) [
    | inl p ↦ rw (p, process_timer) (vacant p)
    | inr (e, p) ↦ elim (Bool-cases (leb e.expiration_tick w.current_tick)) [
      | inl q ↦ rw (p, process_timer, q) (due e p (ground arith))
      | inr q ↦ rw (p, process_timer, q) (ahead e p (ground arith))
    ]
  ]

  pub process_timer-IsPlaced :
      (k : ℕ) (ks : List ℕ) (w : TimingWheel S) (expired : List ℕ)
      → IsPlaced (k ∷ ks) w
      → IsPlaced ks (process_timer k (w, expired)).0
  unfolding expire_entry
  process_timer-IsPlaced k ks w expired h =
      process_timer_cases (λ st. IsPlaced ks st.0) k w expired
        (λ p. record { at = λ j e q. ground (arith, h.at j e, has-cons j k ks) })
        (λ e p d. record {
          at = λ j f q. ground (arith, h.at j f, has-cons j k ks, get-expire_entry k j w);
        })
        (λ e p d. record {
          at = λ j f q. ground (
            arith,
            h.at j f,
            has-cons j k ks,
            get-place_entry k j e w,
            level_in_range (e.expiration_tick - w.current_tick),
            has-place_entry k j e w f.level f.slot,
          );
        })

-- The same timer: an entry may only have changed its place.
abbrev pub Same : TimerEntry → TimerEntry → Type 0
Same e f =
    (f.waker ≡ e.waker) × (f.expiration_tick ≡ e.expiration_tick) × (f.generation ≡ e.generation)

module _ {S : Type 0} ⦃slab : Slab S TimerEntry⦄ where
  -- What the loops have done to the wheel `w` when `st` is the wheel and the wakers so far.
  pub record IsProgress (w : TimingWheel S) (st : TimingWheel S × List ℕ) : Type 0 where
    pub tick : st.0.current_tick ≡ w.current_tick
    pub counter : st.0.generation_counter ≡ w.generation_counter
    pub heap : st.0.expiration_heap ≡ w.expiration_heap
    pub origin :
        (k : ℕ) (f : TimerEntry)
        → slab.get st.0.entries k ≡ some f
        → (slab.get w.entries k ≡ some f)
          ⊎ ((e : TimerEntry) × (slab.get w.entries k ≡ some e)
              × Same e f
              × (w.current_tick < f.expiration_tick))
    pub fate :
        (k : ℕ) (e : TimerEntry)
        → slab.get w.entries k ≡ some e
        → ((slab.get st.0.entries k ≡ none)
            × (e.expiration_tick ≤ w.current_tick)
            × (has e.waker st.1 ≡ true))
          ⊎ ((f : TimerEntry) × (slab.get st.0.entries k ≡ some f) × Same e f)
    pub sound :
        (x : ℕ)
        → has x st.1 ≡ true
        → (k : ℕ) × (e : TimerEntry) × (slab.get w.entries k ≡ some e)
          × (e.waker ≡ x)
          × (e.expiration_tick ≤ w.current_tick)

  -- The timer of an entry that is live now, as it was at the start.
  pub IsProgress-first :
      (w : TimingWheel S) (st : TimingWheel S × List ℕ) (k : ℕ) (e : TimerEntry)
      → IsProgress w st
      → slab.get st.0.entries k ≡ some e
      → (o : TimerEntry) × (slab.get w.entries k ≡ some o) × Same o e
  IsProgress-first w st k e h p = elim (h.origin k e p) [
    | inl q ↦ (e, q, (refl, refl, refl))
    | inr (o, q, same, _) ↦ (o, q, same)
  ]

  pub process_timer-IsProgress :
      (w : TimingWheel S) (k : ℕ) (v : TimingWheel S) (expired : List ℕ)
      → IsProgress w (v, expired)
      → IsProgress w (process_timer k (v, expired))
  unfolding expire_entry place_entry
  process_timer-IsProgress w k v expired h =
      process_timer_cases (IsProgress w) k v expired (λ _. h)
        (λ e p due. record {
          tick = h.tick;
          counter = h.counter;
          heap = h.heap;
          origin = λ j f q. ground (arith, h.origin j f, get-expire_entry k j v);
          fate = λ j f q. ground (
            arith,
            h.fate j f q,
            get-expire_entry k j v,
            has-append f.waker expired (e.waker ∷ []),
            has-cons f.waker e.waker [],
          );
          sound = λ x q. elim (Bool-cases (has x expired)) [
            | inl old ↦ h.sound x old
            | inr fresh ↦
                let (o, r, same) = IsProgress-first w (v, expired) k e h p in
                (
                  k,
                  o,
                  r,
                  ground (
                    arith,
                    has-append x expired (e.waker ∷ []),
                    has-cons x e.waker [],
                    has-nil x,
                  ),
                  ground (arith, h.tick),
                )
          ];
        })
        (λ e p ahead. record {
          tick = h.tick;
          counter = h.counter;
          heap = h.heap;
          origin = λ j f q. ground (arith, h.origin j f, h.origin k e p, get-place_entry k j e v p);
          fate = λ j f q. ground (arith, h.fate j f q, get-place_entry k j e v p);
          sound = h.sound;
        })

  -- What is clear of overdue timers: slot `slot` of level `level`, but for the entries in `pending`.
  pub record IsClear (pending : List ℕ) (level slot : ℕ) (w : TimingWheel S) : Type 0 where
    pub at :
        (k : ℕ) (e : TimerEntry)
        → slab.get w.entries k ≡ some e
        → e.level ≡ level
        → e.slot ≡ slot
        → (has k pending ≡ true) ⊎ (w.current_tick < e.expiration_tick)

  pub process_timer-IsClear :
      (k : ℕ) (ks : List ℕ) (level slot : ℕ) (w : TimingWheel S) (expired : List ℕ)
      → IsClear (k ∷ ks) level slot w
      → IsClear ks level slot (process_timer k (w, expired)).0
  unfolding expire_entry place_entry
  process_timer-IsClear k ks level slot w expired h =
      process_timer_cases (λ st. IsClear ks level slot st.0) k w expired
        (λ p. record { at = λ j e q. ground (arith, h.at j e, has-cons j k ks) })
        (λ e p d. record {
          at = λ j f q. ground (arith, h.at j f, has-cons j k ks, get-expire_entry k j w);
        })
        (λ e p d. record {
          at = λ j f q. ground (arith, h.at j f, has-cons j k ks, get-place_entry k j e w p);
        })
