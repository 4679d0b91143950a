-- ===== src/Wheel/Heap.antt =====
-- `expiration_heap` of vibeio/src/timer.rs. The standard library's binary heap of `Reverse` tuples is
-- read as what it promises: a list whose head is the least tuple, in the order of the tuples.
use vibeio.Prelude.{
  ℕ, ◌≤◌, ◌≡◌, ◌⊎◌, inl, inr, refl, Bool, true, false, Option, none, some, List, [], ◌∷◌, arith,
  ltb, leb, ◌==◌, ◌&&◌, ◌||◌, if◌then◌else◌, All, Bool-cases, Option-cases, ==_iff,
}
use mathlib.Core.Path.{subst}
use mathlib.Core.Logic.{◌≢◌}
use vibeio.Wheel.Entry.{TimerEntry}

-- `(tick, slab_index, generation)`.
abbrev pub Item : Type 0
Item = ℕ × ℕ × ℕ

-- The order of the tuples, by the first part that differs.
abbrev leb_item : Item → Item → Bool
leb_item (t, i, g) (t', i', g') = ltb t t' || (t == t' && (ltb i i' || (i == i' && leb g g')))

unfoldable pub push : Item → List Item → List Item
push x [] = x ∷ []
push x (y ∷ ys) = if leb_item x y then x ∷ y ∷ ys else y ∷ push x ys

-- The loop of `refresh_min_expiration`: stale tuples are popped until the head belongs to a live
-- entry. The pair of the least tick and the heap that is left.
unfoldable pub refresh : (ℕ → Option TimerEntry) → List Item → Option ℕ × List Item
refresh get [] = (none, [])
refresh get ((tick, idx, gen) ∷ heap) = elim (get idx) [
  | none ↦ refresh get heap
  | some entry ↦ elim (entry.generation == gen) [
    | true ↦ (some entry.expiration_tick, (tick, idx, gen) ∷ heap)
    | false ↦ refresh get heap
  ]
]

pub has_item : Item → List Item → Bool
has_item x [] = false
has_item (t, i, g) ((t', i', g') ∷ heap) =
    (t' == t && (i' == i && g' == g)) || has_item (t, i, g) heap

-- No later tick stands before an earlier one.
abbrev pub IsSorted : List Item → Type 0
IsSorted [] = Unit {0}
IsSorted (x ∷ heap) = All (λ y. x.0 ≤ y.0) heap × IsSorted heap

pub All-mono {ℓ} :
    {P Q : Item → Type ℓ} → ((x : Item) → P x → Q x) → (heap : List Item) → All P heap → All Q heap
All-mono f [] h = tt
All-mono f (x ∷ heap) h = (f x h.0, All-mono f heap h.1)

pub All-has_item {ℓ} :
    (P : Item → Type ℓ) (t i g : ℕ) (heap : List Item)
    → All P heap
    → has_item (t, i, g) heap ≡ true
    → P (t, i, g)
unfolding has_item
All-has_item P t i g [] h q = cc
All-has_item P t i g ((t', i', g') ∷ heap) h q =
    elim (Bool-cases (t' == t && (i' == i && g' == g))) [
      | inl e ↦
          let p : (t' ≡ t) × (i' ≡ i) × (g' ≡ g) = ground arith in
          let same : ◌≡◌ {A = Item} (t', i', g') (t, i, g) = cc (p.0, p.1, p.2) in subst P same h.0
      | inr e ↦ All-has_item P t i g heap h.1 (ground arith)
    ]

pub All-push {ℓ} :
    (P : Item → Type ℓ) (x : Item) (heap : List Item) → P x → All P heap → All P (push x heap)
unfolding push
All-push P x [] p h = (p, tt)
All-push P x (y ∷ heap) p h = elim (Bool-cases (leb_item x y)) [
  | inl e ↦ rw e (p, h)
  | inr e ↦ rw e (h.0, All-push P x heap p h.1)
]

pub has_item-push :
    (t i g t' i' g' : ℕ) (heap : List Item)
    → has_item (t, i, g) (push (t', i', g') heap)
      ≡ ((t' == t && (i' == i && g' == g)) || has_item (t, i, g) heap)
unfolding push has_item
has_item-push t i g t' i' g' [] = refl
has_item-push t i g t' i' g' ((t'', i'', g'') ∷ heap) =
    ground (arith, has_item-push t i g t' i' g' heap)

pub push-IsSorted : (x : Item) (heap : List Item) → IsSorted heap → IsSorted (push x heap)
unfolding push
push-IsSorted x [] h = (tt, tt)
push-IsSorted x (y ∷ heap) h = elim (Bool-cases (leb_item x y)) [
  | inl e ↦ rw e ((ground arith, All-mono (λ z (q : y.0 ≤ z.0). first_le x y z e q) heap h.0), h)
  | inr e ↦ rw e (All-push (λ z. y.0 ≤ z.0) x heap (ground arith) h.0, push-IsSorted x heap h.1)
]
  where
    first_le : (x y z : Item) → leb_item x y ≡ true → y.0 ≤ z.0 → x.0 ≤ z.0
    first_le x y z e q = ground arith

pub not-has_item-nil : (t i g : ℕ) → has_item (t, i, g) [] ≢ true
unfolding has_item
not-has_item-nil t i g h = cc

-- The head of a sorted heap is its least tick.
pub head-le :
    (t i g t' i' g' : ℕ) (heap : List Item)
    → IsSorted ((t, i, g) ∷ heap)
    → has_item (t', i', g') ((t, i, g) ∷ heap) ≡ true
    → t ≤ t'
unfolding has_item
head-le t i g t' i' g' heap h p = elim (Bool-cases (has_item (t', i', g') heap)) [
  | inl q ↦ All-has_item (λ y. t ≤ y.0) t' i' g' heap h.0 q
  | inr q ↦ ground arith
]

module _ (get : ℕ → Option TimerEntry) where
  -- An item whose index leads to a live entry of its generation.
  abbrev pub IsLive : Item → Type 0
  IsLive (t, i, g) = (e : TimerEntry) × (get i ≡ some e) × (e.generation ≡ g)

  pub All-refresh {ℓ} :
      (P : Item → Type ℓ) (heap : List Item) → All P heap → All P (refresh get heap).1
  unfolding refresh
  All-refresh P [] h = tt
  All-refresh P ((t, i, g) ∷ heap) h = elim (Option-cases (get i)) [
    | inl p ↦ rw (p, refresh) (All-refresh P heap h.1)
    | inr (e, p) ↦ elim (Bool-cases (e.generation == g)) [
      | inl q ↦ rw (p, refresh, q) h
      | inr q ↦ rw (p, refresh, q) (All-refresh P heap h.1)
    ]
  ]

  pub refresh-IsSorted : (heap : List Item) → IsSorted heap → IsSorted (refresh get heap).1
  unfolding refresh
  refresh-IsSorted [] h = tt
  refresh-IsSorted ((t, i, g) ∷ heap) h = elim (Option-cases (get i)) [
    | inl p ↦ rw (p, refresh) (refresh-IsSorted heap h.1)
    | inr (e, p) ↦ elim (Bool-cases (e.generation == g)) [
      | inl q ↦ rw (p, refresh, q) h
      | inr q ↦ rw (p, refresh, q) (refresh-IsSorted heap h.1)
    ]
  ]

  -- Live items stay.
  pub has_item-refresh :
      (t i g : ℕ) (e : TimerEntry) (heap : List Item)
      → get i ≡ some e
      → e.generation ≡ g
      → has_item (t, i, g) heap ≡ true
      → has_item (t, i, g) (refresh get heap).1 ≡ true
  unfolding refresh has_item
  has_item-refresh t i g e [] p q h = h
  has_item-refresh t i g e ((t', i', g') ∷ heap) p q h =
      ground (arith, has_item-refresh t i g e heap p q)

  -- The result is the tick of the first item that is left, or nothing if none is left.
  pub refresh_least :
      (heap : List Item)
      → ((refresh get heap ≡ (none, [])))
        ⊎ ((t i g : ℕ) × (rest : List Item) × (e : TimerEntry) × (get i ≡ some e)
            × (e.generation ≡ g)
            × (refresh get heap ≡ (some e.expiration_tick, (t, i, g) ∷ rest)))
  unfolding refresh
  refresh_least [] = inl refl
  refresh_least ((t, i, g) ∷ heap) = elim (Option-cases (get i)) [
    | inl p ↦ rw (p, refresh) (refresh_least heap)
    | inr (e, p) ↦ elim (Bool-cases (e.generation == g)) [
      | inl q ↦ inr (t, i, g, heap, e, p, (==_iff e.generation g).0 q, rw (p, refresh, q))
      | inr q ↦ rw (p, refresh, q) (refresh_least heap)
    ]
  ]
