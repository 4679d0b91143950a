-- ===== src/Prelude/Results.antt =====
-- `std::io::Error` and `Result<A, io::Error>`. An error is its kind, or the number that the operating
-- system gave.
use Prim.Native.Nat.{ℕ}
use mathlib.Core.Path.{◌≡◌, refl}
use mathlib.Core.Logic.{◌⊎◌, inl, inr}

pub data IoError : Type 0 where
  not_found : IoError
  not_connected : IoError
  unsupported : IoError
  write_zero : IoError
  interrupted : IoError
  would_block : IoError
  invalid_input : IoError
  invalid_data : IoError
  unexpected_eof : IoError
  other : IoError
  os : ℕ → IoError

pub data Result (A : Type 0) : Type 0 where
  ok : A → Result A
  err : IoError → Result A

pub Result-cases :
    {A : Type 0} (r : Result A) → ((a : A) × (r ≡ ok a)) ⊎ ((e : IoError) × (r ≡ err e))
Result-cases (ok a) = inl (a, refl)
Result-cases (err e) = inr (e, refl)
