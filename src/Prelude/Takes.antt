-- ===== src/Prelude/Takes.antt =====
-- The front of a list.
use Prim.Native.Nat.{ℕ, zero, suc, ◌-◌, ◌≤◌}
use mathlib.Core.Path.{◌≡◌, refl, sym, ap, ◌∙◌}
use mathlib.Core.List.{List, [], ◌∷◌, ◌++◌}
use native.Mathlib.Omega.{arith}
use vibeio.Prelude.Lists.{length, take, drop}

module _ {ℓ} {A : Type ℓ} where
  pub take_nil : (n : ℕ) → take {A = A} n [] ≡ []
  take_nil zero = refl
  take_nil (suc n) = refl

  pub take_split :
      (k n : ℕ) (xs : List A) → k ≤ n → take n xs ≡ take k xs ++ take (n - k) (drop k xs)
  take_split zero n xs h = let same : n ≡ n - 0 = omega arith in ap (λ k. take k xs) same
  take_split (suc k) zero xs h = absurd (omega arith)
  take_split (suc k) (suc n) [] h = sym (take_nil (suc n - suc k))
  take_split (suc k) (suc n) (x ∷ xs) h =
      let same : n - k ≡ suc n - suc k = omega arith in
      ap (λ ys. x ∷ ys)
        (take_split k n xs (omega arith) ∙ ap (λ m. take k xs ++ take m (drop k xs)) same)

  pub length-take : (k : ℕ) (xs : List A) → k ≤ length xs → length (take k xs) ≡ k
  length-take zero xs h = refl
  length-take (suc k) [] h = absurd (omega arith)
  length-take (suc k) (x ∷ xs) h = omega (arith, length-take k xs (omega arith))

  pub take_self : (xs ys : List A) → take (length xs) (xs ++ ys) ≡ xs
  take_self [] ys = refl
  take_self (x ∷ xs) ys = rw (take_self xs ys)
