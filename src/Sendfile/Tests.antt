-- ===== src/Sendfile/Tests.antt =====
-- Runs of sending at fixed inputs.
use vibeio.Prelude.{
  ℕ, zero, suc, ◌^◌, ◌≤◌, ◌<◌, ◌≡◌, refl, ap, ◌⊎◌, inl, inr, true, false, some, List, [], ◌∷◌, ◌++◌,
  Result, ok, length, length-take-le, take, drop, min, arith,
}
use vibeio.Sendfile.{
  Splices, sendfile_exact, sendfile_exact_completion, completion_loop, fill, empty, splice_len,
  sendfile_exact_poll, sendfile_loop, IsSent,
}
use vibeio.Sendfile.Long.{long_pipe_sends_nothing}
use vibeio.Sendfile.Agree.{sendfile_exact-IsSent, sendfile_paths_agree}

-- A file, a pipe and a socket of which each call moves two bytes at most.
record Flow : Type 0 where
  left : List ℕ
  piped : List ℕ
  taken : List ℕ

-- How many bytes move.
abbrev moved : ℕ → List ℕ → ℕ
moved ask xs = length (take (min ask 2) xs)

moved_le : (ask : ℕ) (xs : List ℕ) → moved ask xs ≤ ask
moved_le ask xs = omega (arith, length-take-le (min ask 2) xs)

take_le_length : (n : ℕ) (xs : List ℕ) → length (take n xs) ≤ length xs
take_le_length zero xs = omega arith
take_le_length (suc n) [] = omega arith
take_le_length (suc n) (x ∷ xs) = omega (arith, take_le_length n xs)

moves_one : (k x : ℕ) (xs : List ℕ) → 0 < k → 0 < length (take k (x ∷ xs))
moves_one zero x xs h = absurd (omega arith)
moves_one (suc k) x xs h = omega arith

moved_end : (ask : ℕ) (xs : List ℕ) → moved ask xs ≡ 0 → (ask ≡ 0) ⊎ (xs ≡ [])
moved_end zero xs p = inl refl
moved_end (suc ask) [] p = inr refl
moved_end (suc ask) (x ∷ xs) p =
    let some_moved = moves_one (min (suc ask) 2) x xs (omega arith) in absurd (omega arith)

abbrev into_pipe : Flow → ℕ → Result ℕ × Flow
into_pipe f ask =
    let n = moved ask f.left in
    (ok n, record f { left = drop n f.left; piped = f.piped ++ take n f.left })

abbrev out_of_pipe : Flow → ℕ → Result ℕ × Flow
out_of_pipe f ask =
    let n = moved ask f.piped in
    (ok n, record f { piped = drop n f.piped; taken = f.taken ++ take n f.piped })

abbrev direct : Flow → ℕ → Result ℕ × Flow
direct f ask =
    let n = moved ask f.left in
    (ok n, record f { left = drop n f.left; taken = f.taken ++ take n f.left })

into_pipe_ok :
    (f : Flow) (ask n : ℕ)
    → (into_pipe f ask).0 ≡ ok n
    → (n ≤ ask)
      × (n ≤ length f.left)
      × ((into_pipe f ask).1.left ≡ drop n f.left)
      × ((into_pipe f ask).1.piped ≡ f.piped ++ take n f.left)
      × ((into_pipe f ask).1.taken ≡ f.taken)
into_pipe_ok f ask n p =
    let q : moved ask f.left ≡ n = cc in
    (
      omega (arith, moved_le ask f.left),
      omega (arith, take_le_length (min ask 2) f.left),
      ap (λ k. drop k f.left) q,
      ap (λ k. f.piped ++ take k f.left) q,
      refl,
    )

out_of_pipe_ok :
    (f : Flow) (ask n : ℕ)
    → (out_of_pipe f ask).0 ≡ ok n
    → (n ≤ ask)
      × (n ≤ length f.piped)
      × ((out_of_pipe f ask).1.left ≡ f.left)
      × ((out_of_pipe f ask).1.piped ≡ drop n f.piped)
      × ((out_of_pipe f ask).1.taken ≡ f.taken ++ take n f.piped)
out_of_pipe_ok f ask n p =
    let q : moved ask f.piped ≡ n = cc in
    (
      omega (arith, moved_le ask f.piped),
      omega (arith, take_le_length (min ask 2) f.piped),
      refl,
      ap (λ k. drop k f.piped) q,
      ap (λ k. f.taken ++ take k f.piped) q,
    )

direct_ok :
    (f : Flow) (ask n : ℕ)
    → (direct f ask).0 ≡ ok n
    → (n ≤ ask)
      × (n ≤ length f.left)
      × ((direct f ask).1.left ≡ drop n f.left)
      × ((direct f ask).1.taken ≡ f.taken ++ take n f.left)
direct_ok f ask n p =
    let q : moved ask f.left ≡ n = cc in
    (
      omega (arith, moved_le ask f.left),
      omega (arith, take_le_length (min ask 2) f.left),
      ap (λ k. drop k f.left) q,
      ap (λ k. f.taken ++ take k f.left) q,
    )

instance abbrev flows : Splices Flow
flows = record {
  source = λ f. f.left;
  pipe = λ f. f.piped;
  sink = λ f. f.taken;
  pipe2 = λ f. (ok tt, record f { piped = [] });
  splice_in = into_pipe;
  splice_out = out_of_pipe;
  sendfile = direct;
  pipe2_ok = λ f p. refl;
  pipe2_keeps = λ f. (refl, refl);
  splice_in_ok = into_pipe_ok;
  splice_in_end = λ f ask p. moved_end ask f.left cc;
  splice_in_err = λ f ask e p. absurd cc;
  splice_out_ok = out_of_pipe_ok;
  splice_out_end = λ f ask p. moved_end ask f.piped cc;
  splice_out_err = λ f ask e p. absurd cc;
  sendfile_ok = direct_ok;
  sendfile_end = λ f ask p. moved_end ask f.left cc;
  sendfile_err = λ f ask e p. absurd cc;
}

abbrev five_bytes : Flow
five_bytes = record { left = 1 ∷ 2 ∷ 3 ∷ 4 ∷ 5 ∷ []; piped = []; taken = 9 ∷ [] }

by_pipe_run :
    sendfile_exact true five_bytes 3
    ≡ some (ok 3, record { left = 4 ∷ 5 ∷ []; piped = []; taken = 9 ∷ 1 ∷ 2 ∷ 3 ∷ [] })
unfolding sendfile_exact sendfile_exact_completion completion_loop fill empty splice_len
by_pipe_run = refl

direct_run :
    sendfile_exact false five_bytes 8
    ≡ some (ok 5, record { left = []; piped = []; taken = 9 ∷ 1 ∷ 2 ∷ 3 ∷ 4 ∷ 5 ∷ [] })
unfolding sendfile_exact sendfile_exact_poll sendfile_loop
direct_run = refl

sendfile_exact-IsSent_example :
    (out : Result ℕ × Flow) × (sendfile_exact true five_bytes 3 ≡ some out)
    × IsSent (1 ∷ 2 ∷ 3 ∷ 4 ∷ 5 ∷ []) (9 ∷ []) 3 out
sendfile_exact-IsSent_example = sendfile_exact-IsSent true five_bytes 3 (λ t. omega arith)

abbrev three : ℕ
three = 3

abbrev after_three : List ℕ → Result ℕ × Flow
after_three piped = (ok 3, record { left = 4 ∷ 5 ∷ []; piped = piped; taken = 9 ∷ 1 ∷ 2 ∷ 3 ∷ [] })

sendfile_paths_agree_example :
    (three ≡ three) × ((after_three []).1.taken ≡ (after_three []).1.taken)
unfolding sendfile_exact sendfile_exact_completion completion_loop fill empty splice_len
    sendfile_exact_poll sendfile_loop
sendfile_paths_agree_example =
    sendfile_paths_agree five_bytes 3 three three (after_three []) (after_three []) (omega arith)
      refl refl refl refl

long_pipe_sends_nothing_run : sendfile_exact true five_bytes (2 ^ 32) ≡ some (ok 0, five_bytes)
long_pipe_sends_nothing_run =
    long_pipe_sends_nothing five_bytes five_bytes (2 ^ 32) (omega arith) (omega arith) refl refl
