-- ===== src/Prelude/Lists.antt =====
-- Lists measured by native numbers, and membership of a number as a Boolean test.
use Prim.Native.Nat.{ℕ, zero, suc, ◌+◌, ◌-◌, ◌≤◌}
use mathlib.Core.Path.{◌≡◌, refl, sym}
use mathlib.Core.Logic.{◌≢◌}
use mathlib.Core.Bool.{Bool, true, false, ◌||◌}
use mathlib.Core.List.{List, [], ◌∷◌, ◌++◌}
use native.Mathlib.Omega.{arith}
use vibeio.Prelude.Tests.{◌==◌, if◌then◌else◌}

module _ {ℓ} {A : Type ℓ} where
  abbrev pub length : List A → ℕ
  length [] = 0
  length (x ∷ xs) = suc (length xs)

  pub length-append : (xs ys : List A) → length (xs ++ ys) ≡ length xs + length ys
  length-append [] ys = omega arith
  length-append (x ∷ xs) ys = omega (arith, length-append xs ys)

abbrev pub All {ℓ κ} : {A : Type ℓ} → (A → Type κ) → List A → Type κ
All P [] = Unit
All P (x ∷ xs) = P x × All P xs

-- Whether `k` stands in the list.
unfoldable pub has : ℕ → List ℕ → Bool
has k [] = false
has k (x ∷ xs) = x == k || has k xs

pub has-append : (k : ℕ) (xs ys : List ℕ) → has k (xs ++ ys) ≡ (has k xs || has k ys)
unfolding has
has-append k [] ys = refl
has-append k (x ∷ xs) ys = ground (arith, has-append k xs ys)

pub has-nil : (k : ℕ) → has k [] ≡ false
unfolding has
has-nil k = refl

pub has-cons : (k x : ℕ) (xs : List ℕ) → has k (x ∷ xs) ≡ (x == k || has k xs)
unfolding has
has-cons k x xs = refl

-- `v.iter().position(|x| x == k)` and then `v.remove(pos)`: the first occurrence goes.
unfoldable pub remove_first : ℕ → List ℕ → List ℕ
remove_first k [] = []
remove_first k (x ∷ xs) = if x == k then xs else x ∷ remove_first k xs

pub has-remove_first_ne : (j k : ℕ) (xs : List ℕ) → j ≢ k → has j (remove_first k xs) ≡ has j xs
unfolding has remove_first
has-remove_first_ne j k [] h = refl
has-remove_first_ne j k (x ∷ xs) h = ground (arith, has-remove_first_ne j k xs h)

zero-sub : (n : ℕ) → 0 - n ≡ 0
zero-sub n = omega arith

sub-zero : (n : ℕ) → n - 0 ≡ n
sub-zero n = omega arith

suc-sub-suc : (m n : ℕ) → suc m - suc n ≡ m - n
suc-sub-suc m n = omega arith

module _ {ℓ} {A : Type ℓ} where
  abbrev pub take : ℕ → List A → List A
  take zero xs = []
  take (suc n) [] = []
  take (suc n) (x ∷ xs) = x ∷ take n xs

  abbrev pub drop : ℕ → List A → List A
  drop zero xs = xs
  drop (suc n) [] = []
  drop (suc n) (x ∷ xs) = drop n xs

  pub take-append-drop : (n : ℕ) (xs : List A) → take n xs ++ drop n xs ≡ xs
  take-append-drop zero xs = refl
  take-append-drop (suc n) [] = refl
  take-append-drop (suc n) (x ∷ xs) = rw (take-append-drop n xs)

  pub length-drop : (n : ℕ) (xs : List A) → length (drop n xs) ≡ length xs - n
  length-drop zero xs = omega arith
  length-drop (suc n) [] = omega arith
  length-drop (suc n) (x ∷ xs) = omega (arith, length-drop n xs)

  pub take_all : (n : ℕ) (xs : List A) → length xs ≤ n → take n xs ≡ xs
  take_all zero [] h = refl
  take_all zero (x ∷ xs) h = absurd (omega arith)
  take_all (suc n) [] h = refl
  take_all (suc n) (x ∷ xs) h = rw (take_all n xs (omega arith))

  pub take-append :
      (n : ℕ) (xs ys : List A) → take n (xs ++ ys) ≡ take n xs ++ take (n - length xs) ys
  take-append zero xs ys = rw (zero-sub (length xs))
  take-append (suc n) [] ys = rw (sub-zero (suc n))
  take-append (suc n) (x ∷ xs) ys = rw (take-append n xs ys, suc-sub-suc n (length xs))

  pub drop-append :
      (n : ℕ) (xs ys : List A) → drop n (xs ++ ys) ≡ drop n xs ++ drop (n - length xs) ys
  drop-append zero xs ys = rw (zero-sub (length xs))
  drop-append (suc n) [] ys = rw (sub-zero (suc n))
  drop-append (suc n) (x ∷ xs) ys = rw (drop-append n xs ys, suc-sub-suc n (length xs))

pub zero-add : (b : ℕ) → zero + b ≡ b
zero-add b = omega arith

pub suc-add : (a b : ℕ) → suc a + b ≡ suc (a + b)
suc-add a b = omega arith

drop-nil : (b : ℕ) → drop {A = ℕ} b [] ≡ []
drop-nil zero = refl
drop-nil (suc b) = refl

pub drop-add : (a b : ℕ) (xs : List ℕ) → drop (a + b) xs ≡ drop b (drop a xs)
drop-add zero b xs = rw (zero-add b) refl
drop-add (suc a) b [] = rw (suc-add a b) (sym (drop-nil b))
drop-add (suc a) b (x ∷ xs) = rw (suc-add a b) (drop-add a b xs)

pub length-take-le {ℓ} : {A : Type ℓ} (n : ℕ) (xs : List A) → length (take n xs) ≤ n
length-take-le zero xs = omega arith
length-take-le (suc n) [] = omega arith
length-take-le (suc n) (x ∷ xs) = omega (arith, length-take-le n xs)

-- How often `k` stands in the list.
pub count : ℕ → List ℕ → ℕ
count k [] = 0
count k (x ∷ xs) = (if x == k then 1 else 0) + count k xs

pub count-append : (k : ℕ) (xs ys : List ℕ) → count k (xs ++ ys) ≡ count k xs + count k ys
unfolding count
count-append k [] ys = omega arith
count-append k (x ∷ xs) ys = omega (arith, count-append k xs ys)

pub count-nil : (k : ℕ) → count k [] ≡ 0
unfolding count
count-nil k = refl

pub count-one : (k x : ℕ) → count k (x ∷ []) ≡ (if x == k then 1 else 0)
unfolding count
count-one k x = omega arith

pub has-count : (k : ℕ) (xs : List ℕ) → has k xs ≡ (if count k xs == 0 then false else true)
unfolding has count
has-count k [] = refl
has-count k (x ∷ xs) = ground (arith, has-count k xs)
