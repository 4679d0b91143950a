-- ===== src/Copy/Tests.antt =====
-- A copy of five bytes, read by three at a time.
use vibeio.Prelude.{
  ℕ, ◌≤◌, ◌≡◌, refl, sym, ap, some, List, [], ◌∷◌, ◌++◌, Result, ok, err, IoError, length, take,
  drop, take_all, arith, take-append-drop,
}
use vibeio.Copy.{AsyncRead, AsyncWrite, copy_loop, write_buf}
use vibeio.Copy.Moves.{copy_moves_all, IsCopied}

read-take : (r bytes : List ℕ) → ok (take 3 r) ≡ ok bytes → r ≡ bytes ++ drop 3 r
read-take r bytes h =
    let same : take 3 r ≡ bytes = ground arith in rw⁻¹ same (sym (take-append-drop 3 r))

append-write :
    (w bytes : List ℕ) (n : ℕ)
    → ok (length bytes) ≡ ok n
    → (n ≤ length bytes) × (w ++ bytes ≡ w ++ take n bytes)
append-write w bytes n h =
    let same : length bytes ≡ n = ground arith in
    (omega arith, ap (λ (xs : List ℕ). w ++ xs) (sym (take_all n bytes (omega arith))))

no_error : {A : Type 0} (a : A) (e : IoError) → ok a ≡ err e → ⊥
no_error a e h = ground arith

instance abbrev by_three : AsyncRead (List ℕ)
by_three = record {
  rest = λ r. r;
  read = λ r. (ok (take 3 r), drop 3 r);
  read_ok = read-take;
  read_err = λ r e h. absurd (no_error _ e h);
}

instance abbrev to_list : AsyncWrite (List ℕ)
to_list = record {
  written = λ w. w;
  write = λ w bytes. (ok (length bytes), w ++ bytes);
  flush = λ w. (ok tt, w);
  write_ok = append-write;
  write_err = λ w bytes e h. absurd (no_error _ e h);
  written-flush = λ w. refl;
}

abbrev five : List ℕ
five = 1 ∷ 2 ∷ 3 ∷ 4 ∷ 5 ∷ []

copy_moves_all_example :
    (after : Result ℕ × List ℕ × List ℕ) × (copy_loop 6 five [] 0 ≡ some after)
    × IsCopied five [] 0 after
copy_moves_all_example = copy_moves_all 6 five [] 0 (omega arith) (omega arith)

copied : copy_loop 6 five [] 0 ≡ some (ok 5, [], five)
unfolding copy_loop write_buf
copied = refl
