-- ===== src/Slab.antt =====
-- The crate `slab`, which the timer and the mio driver keep their entries in. It is not part of the
-- repository: `Slab` states what its documentation promises of the calls that are used.
pub mod Slots
use vibeio.Prelude.{ℕ, ◌≡◌, ◌↔◌, Bool, true, Option, none, some, ◌==◌, if◌then◌else◌}
use mathlib.Core.Option

-- `S` is `Slab<A>`. `insert` returns the key that it chose. `update k f` is a write of `f` through
-- `get_mut(k)`, and nothing where that is `None`.
pub record Slab (S A : Type 0) : Type 0 where
  pub empty : S
  pub get : S → ℕ → Option A
  pub insert : S → A → ℕ × S
  pub remove : S → ℕ → S
  pub update : S → ℕ → (A → A) → S
  pub is_empty : S → Bool
  pub get-empty : (k : ℕ) → get empty k ≡ none
  pub insert_vacant : (s : S) (a : A) → get s (insert s a).0 ≡ none
  pub get-insert :
      (s : S) (a : A) (j : ℕ)
      → get (insert s a).1 j ≡ (if (insert s a).0 == j then some a else get s j)
  pub get-remove : (s : S) (k j : ℕ) → get (remove s k) j ≡ (if k == j then none else get s j)
  pub get-update :
      (s : S) (k : ℕ) (f : A → A) (j : ℕ)
      → get (update s k f) j ≡ (if k == j then Option.map f (get s j) else get s j)
  pub is_empty_iff : (s : S) → (is_empty s ≡ true) ↔ ((k : ℕ) → get s k ≡ none)
