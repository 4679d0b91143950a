-- ===== src/Wrap/Tests.antt =====
-- A wrap whose object reads five bytes at once, polled by a caller with room for three.
use vibeio.Prelude.{
  arith, none, length, take, ◌≤◌, ◌++◌, ◌∙◌, sym, ap, ℕ, ◌≡◌, refl, List, [], ◌∷◌, ok,
}
use mathlib.Core.List.{append-nil}
use vibeio.Copy.{AsyncWrite}
use vibeio.Wrap.WriteAll.{write_all, write_all_never_ends}
use vibeio.Join.{ready}
use vibeio.Wrap.{Object, AsyncWrap, new, poll_read, start_read, run_read, end_read}
use vibeio.Wrap.Bytes.{IsSound, IsFilled, IsKept, arrives, poll_read_keeps_bytes}

-- The object and its futures are the bytes that it gives.
instance abbrev bytes : Object (List ℕ) (List ℕ) (List ℕ)
bytes = record {
  read = λ b. b;
  poll_read_future = λ b. (ready (ok b, []), b);
  flush = λ b. b;
  poll_flush_future = λ b. (ready (ok tt, b), b);
}

abbrev five : AsyncWrap (List ℕ) (List ℕ) (List ℕ)
five = new (1 ∷ 2 ∷ 3 ∷ 4 ∷ 5 ∷ [])

five-IsSound : IsSound five
unfolding IsSound IsFilled
five-IsSound = (tt, λ f p. refl)

poll_read_keeps_bytes_example : IsKept five (arrives five 3) 3 (poll_read five 3)
poll_read_keeps_bytes_example = poll_read_keeps_bytes five 3 five-IsSound

first_three : (poll_read five 3).filled ≡ 1 ∷ 2 ∷ 3 ∷ []
unfolding poll_read start_read run_read end_read
first_three = refl

last_two : (poll_read (poll_read five 3).wrap 3).filled ≡ 4 ∷ 5 ∷ []
unfolding poll_read start_read run_read end_read
last_two = refl

full_lem : (w bytes : List ℕ) (n : ℕ) → ok 0 ≡ ok n → (n ≤ length bytes) × (w ≡ w ++ take n bytes)
full_lem w bytes n p =
    let q : 0 ≡ n = cc in (omega arith, sym (append-nil w) ∙ ap (λ k. w ++ take k bytes) q)

-- A writer that is full and says that it took nothing.
instance abbrev full : AsyncWrite (List ℕ)
full = record {
  written = λ w. w;
  write = λ w bytes. (ok 0, w);
  flush = λ w. (ok tt, w);
  write_ok = full_lem;
  write_err = λ w bytes e p. refl;
  written-flush = λ w. refl;
}

full_run : write_all {W = List ℕ} 9 [] (1 ∷ 2 ∷ []) 0 ≡ none
full_run = write_all_never_ends 9 [] (1 ∷ 2 ∷ []) 0 (omega arith) refl
