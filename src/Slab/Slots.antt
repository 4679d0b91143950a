-- ===== src/Slab/Slots.antt =====
-- An implementation of `Slab`, which shows that its laws can hold: a list of slots, in which the
-- first vacant one is taken.
use mathlib.Core.Option
use vibeio.Prelude.{
  ℕ, zero, suc, ◌≡◌, refl, Bool, true, false, Option, none, some, List, [], ◌∷◌, arith, ◌==◌,
  if◌then◌else◌,
}
use vibeio.Slab.{Slab}

module _ {A : Type 0} where
  abbrev get : List (Option A) → ℕ → Option A
  get [] k = none
  get (x ∷ xs) zero = x
  get (x ∷ xs) (suc k) = get xs k

  abbrev insert_key : List (Option A) → ℕ
  insert_key [] = 0
  insert_key (none ∷ xs) = 0
  insert_key (some b ∷ xs) = suc (insert_key xs)

  abbrev insert_slot : List (Option A) → A → List (Option A)
  insert_slot [] a = some a ∷ []
  insert_slot (none ∷ xs) a = some a ∷ xs
  insert_slot (some b ∷ xs) a = some b ∷ insert_slot xs a

  abbrev remove : List (Option A) → ℕ → List (Option A)
  remove [] k = []
  remove (x ∷ xs) zero = none ∷ xs
  remove (x ∷ xs) (suc k) = x ∷ remove xs k

  abbrev update : List (Option A) → ℕ → (A → A) → List (Option A)
  update [] k f = []
  update (x ∷ xs) zero f = Option.map f x ∷ xs
  update (x ∷ xs) (suc k) f = x ∷ update xs k f

  abbrev is_empty : List (Option A) → Bool
  is_empty [] = true
  is_empty (none ∷ xs) = is_empty xs
  is_empty (some a ∷ xs) = false

  pub insert_vacant : (s : List (Option A)) (a : A) → get s (insert_key s) ≡ none
  insert_vacant [] a = refl
  insert_vacant (none ∷ xs) a = refl
  insert_vacant (some b ∷ xs) a = insert_vacant xs a

  pub get-insert :
      (s : List (Option A)) (a : A) (j : ℕ)
      → get (insert_slot s a) j ≡ (if insert_key s == j then some a else get s j)
  get-insert [] a zero = refl
  get-insert [] a (suc j) = ground arith
  get-insert (none ∷ xs) a zero = refl
  get-insert (none ∷ xs) a (suc j) = ground arith
  get-insert (some b ∷ xs) a zero = ground arith
  get-insert (some b ∷ xs) a (suc j) = ground (arith, get-insert xs a j)

  pub get-remove :
      (s : List (Option A)) (k j : ℕ) → get (remove s k) j ≡ (if k == j then none else get s j)
  get-remove [] k j = ground arith
  get-remove (x ∷ xs) zero zero = refl
  get-remove (x ∷ xs) zero (suc j) = ground arith
  get-remove (x ∷ xs) (suc k) zero = ground arith
  get-remove (x ∷ xs) (suc k) (suc j) = ground (arith, get-remove xs k j)

  pub get-update :
      (s : List (Option A)) (k : ℕ) (f : A → A) (j : ℕ)
      → get (update s k f) j ≡ (if k == j then Option.map f (get s j) else get s j)
  get-update [] k f j = ground arith
  get-update (x ∷ xs) zero f zero = refl
  get-update (x ∷ xs) zero f (suc j) = ground arith
  get-update (x ∷ xs) (suc k) f zero = ground arith
  get-update (x ∷ xs) (suc k) f (suc j) = ground (arith, get-update xs k f j)

  pub is_empty→none : (s : List (Option A)) → is_empty s ≡ true → (k : ℕ) → get s k ≡ none
  is_empty→none [] h k = refl
  is_empty→none (none ∷ xs) h zero = refl
  is_empty→none (none ∷ xs) h (suc k) = is_empty→none xs h k
  is_empty→none (some a ∷ xs) h k = cc

  pub none→is_empty : (s : List (Option A)) → ((k : ℕ) → get s k ≡ none) → is_empty s ≡ true
  none→is_empty [] h = refl
  none→is_empty (none ∷ xs) h = none→is_empty xs (λ k. h (suc k))
  none→is_empty (some a ∷ xs) h = cc (h 0)

instance abbrev pub slots : {A : Type 0} → Slab (List (Option A)) A
slots = record {
  empty = [];
  get = get;
  insert = λ s a. (insert_key s, insert_slot s a);
  remove = remove;
  update = update;
  is_empty = is_empty;
  get-empty = λ k. refl;
  insert_vacant = insert_vacant;
  get-insert = get-insert;
  get-remove = get-remove;
  get-update = get-update;
  is_empty_iff = λ s. (is_empty→none s, none→is_empty s);
}
