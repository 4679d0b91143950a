-- ===== src/Fs/File/Tests.antt =====
-- Runs of reads at fixed inputs.
use vibeio.Prelude.{
  ℕ, zero, suc, ◌≤◌, ◌≡◌, refl, sym, ap, ◌∙◌, none, some, List, [], ◌∷◌, ◌++◌, Result, ok, err,
  unexpected_eof, length, take, drop, arith, min,
}
use vibeio.Fs.File.{placed, Disk, File, completion, blocking, Buf, read_exact_at, read}
use vibeio.Fs.File.Exact.{read_exact_at_fills}
use vibeio.Fs.File.Write.{write_exact_at, write, write_at, write_by}
use vibeio.Fs.File.Placed.{write_exact_at_places}
use vibeio.Fs.File.Short.{short_read_ends_early}

-- A file of some bytes that gives three of them at a time at most.
record Pieces : Type 0 where
  bytes : List ℕ
  log : List (ℕ × ℕ)

abbrev piece : Pieces → ℕ → ℕ → List ℕ
piece f offset room = take (min room 3) (drop offset f.bytes)

take_le : (n : ℕ) (xs : List ℕ) → length (take n xs) ≤ n
take_le zero xs = omega arith
take_le (suc n) [] = omega arith
take_le (suc n) (x ∷ xs) = omega (arith, take_le n xs)

take_le_length : (n : ℕ) (xs : List ℕ) → length (take n xs) ≤ length xs
take_le_length zero xs = omega arith
take_le_length (suc n) [] = omega arith
take_le_length (suc n) (x ∷ xs) = omega (arith, take_le_length n xs)

take-length-take : (n : ℕ) (xs : List ℕ) → take n xs ≡ take (length (take n xs)) xs
take-length-take zero xs = refl
take-length-take (suc n) [] = refl
take-length-take (suc n) (x ∷ xs) = ap (λ ys. x ∷ ys) (take-length-take n xs)

piece_lem :
    (f : Pieces) (offset room : ℕ) (bytes : List ℕ)
    → ok (piece f offset room) ≡ ok bytes
    → (length bytes ≤ room) × (bytes ≡ take (length bytes) (drop offset f.bytes))
piece_lem f offset room bytes p =
    let q : piece f offset room ≡ bytes = cc in
    let most = take_le (min room 3) (drop offset f.bytes) in
    (
      omega (arith, ap length q, most),
      sym q
          ∙ take-length-take (min room 3) (drop offset f.bytes)
          ∙ ap (λ ys. take (length ys) (drop offset f.bytes)) q,
    )

-- It takes two at a time at most.
abbrev put_piece : Pieces → ℕ → List ℕ → Result ℕ × Pieces
put_piece f offset bytes =
    (ok (length (take 2 bytes)), record f { log = f.log ++ placed offset (take 2 bytes) })

put_piece_ok :
    (f : Pieces) (offset : ℕ) (bytes : List ℕ) (n : ℕ)
    → (put_piece f offset bytes).0 ≡ ok n
    → (n ≤ length bytes)
      × ((put_piece f offset bytes).1.log ≡ f.log ++ placed offset (take n bytes))
put_piece_ok f offset bytes n p =
    let q : length (take 2 bytes) ≡ n = cc in
    let most = take_le_length 2 bytes in
    (
      omega (arith, q, most),
      ap (λ ys. f.log ++ placed offset ys) (take-length-take 2 bytes ∙ ap (λ k. take k bytes) q),
    )

instance abbrev pieces : Disk Pieces
pieces = record {
  content = λ f. f.bytes;
  written = λ f. f.log;
  pread = λ f offset room. ok (piece f offset room);
  pwrite = put_piece;
  pwrite_ok = put_piece_ok;
  pwrite_err = λ f offset bytes e p. absurd (ground arith);
  pool_error = λ f. none;
  pread_ok = piece_lem;
}

abbrev digits : Pieces
digits = record { bytes = 1 ∷ 2 ∷ 3 ∷ 4 ∷ 5 ∷ 6 ∷ 7 ∷ 8 ∷ []; log = [] }

abbrev five_zeros : Buf
five_zeros = record { held = 0 ∷ 0 ∷ 0 ∷ 0 ∷ 0 ∷ []; capacity = 5 }

abbrev by_driver : File Pieces
by_driver = record { inner = digits; io = completion; cursor = 0 }

abbrev in_place : File Pieces
in_place = record { inner = digits; io = blocking; cursor = 0 }

in_place_run :
    read_exact_at in_place five_zeros 1
    ≡ some (ok tt, record { held = 2 ∷ 3 ∷ 4 ∷ 5 ∷ 6 ∷ []; capacity = 5 })
unfolding read_exact_at
in_place_run = refl

end_of_file_run :
    read_exact_at in_place five_zeros 4
    ≡ some (err unexpected_eof, record { held = 5 ∷ 6 ∷ 7 ∷ 8 ∷ 0 ∷ []; capacity = 5 })
unfolding read_exact_at
end_of_file_run = refl

-- A vector with room and no bytes.
abbrev no_bytes : Buf
no_bytes = record { held = []; capacity = 5 }

read_no_bytes_run : read by_driver no_bytes ≡ (ok 0, no_bytes, by_driver)
unfolding read
read_no_bytes_run = refl

short_read_ends_early_example :
    read_exact_at by_driver five_zeros 1
    ≡ some (ok tt, record { held = 2 ∷ 3 ∷ 4 ∷ []; capacity = 5 })
short_read_ends_early_example =
    short_read_ends_early by_driver five_zeros 1 2 (3 ∷ 4 ∷ []) refl (omega arith) (omega arith)
      refl

read_exact_at_fills_example :
    (out : Result (Unit {0}) × Buf) × (read_exact_at
        (record { inner = digits; io = blocking; cursor = 0 })
        five_zeros
        1
      ≡ some out)
    × (length out.1.held ≡ length five_zeros.held)
    × (out.0 ≡ ok tt → out.1.held ≡ take (length five_zeros.held) (drop 1 digits.bytes))
read_exact_at_fills_example = read_exact_at_fills digits 0 five_zeros 1 (omega arith)

write_exact_at_places_example :
    (out : Result (Unit {0}) × File Pieces) × (write_exact_at in_place (9 ∷ 8 ∷ 7 ∷ []) 4
      ≡ some out)
    × ((n : ℕ) × (n ≤ 3)
        × (out.0 ≡ ok tt → n ≡ 3)
        × (out.1.inner.log ≡ placed 4 (take n (9 ∷ 8 ∷ 7 ∷ []))))
write_exact_at_places_example = write_exact_at_places in_place (9 ∷ 8 ∷ 7 ∷ []) 4 (omega arith)

write_run : write in_place (9 ∷ 8 ∷ 7 ∷ []) ≡ (
  ok 2,
  record {
    inner = record { bytes = digits.bytes; log = (0, 9) ∷ (1, 8) ∷ [] };
    io = blocking;
    cursor = 2;
  },
)
unfolding write write_at write_by
write_run = refl
