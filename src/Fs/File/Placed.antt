-- ===== src/Fs/File/Placed.antt =====
-- Where `write_exact_at` puts the bytes.
use mathlib.Core.List.{append_assoc, append-nil}
use vibeio.Prelude.{
  zero_or_more, ℕ, zero, suc, ◌+◌, ◌^◌, ◌≤◌, ◌<◌, ◌≡◌, refl, ◌∙◌, ap, sym, some, inl, inr, List,
  ◌++◌, Result, ok, err, IoError, unexpected_eof, Result-cases, length, take, drop, length-drop,
  arith,
}
use vibeio.Copy.{sat_add}
use vibeio.Fs.File.{Disk, File, placed}
use vibeio.Fs.File.Write.{write_by, write_at, write_exact_loop, write_exact_at}
use vibeio.Fs.File.Exact.{sat_add_small}
use vibeio.Fs.File.Wrote.{placed-take, IsWrite, write_by-IsWrite}

module _ {F : Type 0} ⦃disk : Disk F⦄ where
  -- The file after a write to it.
  abbrev put : File F → List ℕ → ℕ → File F
  put file bytes offset = record file { inner = (write_by file.io file.inner bytes offset).1 }

  write_at_by :
      (file : File F) (bytes : List ℕ) (offset : ℕ)
      → 0 < length bytes
      → write_at file bytes offset
        ≡ ((write_by file.io file.inner bytes offset).0, put file bytes offset)
  unfolding write_at
  write_at_by file bytes offset h = ground arith

  round_done :
      (fuel : ℕ) (file : File F) (bytes : List ℕ) (offset : ℕ)
      → length bytes ≡ 0
      → write_exact_loop (suc fuel) file bytes offset ≡ some (ok tt, file)
  unfolding write_exact_loop
  round_done fuel file bytes offset h = ground arith

  round_ok :
      (fuel : ℕ) (file file' : File F) (bytes : List ℕ) (offset n : ℕ)
      → 0 < length bytes
      → write_at file bytes offset ≡ (ok (suc n), file')
      → write_exact_loop (suc fuel) file bytes offset
        ≡ write_exact_loop fuel file' (drop (suc n) bytes) (sat_add offset (suc n))
  unfolding write_exact_loop
  round_ok fuel file file' bytes offset n h p = ground arith

  round_zero :
      (fuel : ℕ) (file file' : File F) (bytes : List ℕ) (offset : ℕ)
      → 0 < length bytes
      → write_at file bytes offset ≡ (ok 0, file')
      → write_exact_loop (suc fuel) file bytes offset ≡ some (err unexpected_eof, file')
  unfolding write_exact_loop
  round_zero fuel file file' bytes offset h p = ground arith

  round_err :
      (fuel : ℕ) (file file' : File F) (bytes : List ℕ) (offset : ℕ) (e : IoError)
      → 0 < length bytes
      → write_at file bytes offset ≡ (err e, file')
      → write_exact_loop (suc fuel) file bytes offset ≡ some (err e, file')
  unfolding write_exact_loop
  round_err fuel file file' bytes offset e h p = ground arith

  -- What the loop answers: some front of the bytes is in its place, and all of them after a success.
  IsPlaced : File F → List ℕ → ℕ → Result (Unit {0}) × File F → ℕ → Type 0
  IsPlaced file bytes offset out n =
      (n ≤ length bytes)
      × (out.0 ≡ ok tt → n ≡ length bytes)
      × (disk.written out.1.inner ≡ disk.written file.inner ++ placed offset (take n bytes))

  Places : ℕ → File F → List ℕ → ℕ → Type 0
  Places fuel file bytes offset =
      (out : Result (Unit {0}) × File F) × (write_exact_loop fuel file bytes offset ≡ some out)
      × ((n : ℕ) × IsPlaced file bytes offset out n)

  -- An answer after which nothing more is in its place.
  nothing_placed :
      (file : File F) (bytes : List ℕ) (offset : ℕ) (out : Result (Unit {0}) × File F)
      → (out.0 ≡ ok tt → 0 ≡ length bytes)
      → disk.written out.1.inner ≡ disk.written file.inner
      → IsPlaced file bytes offset out 0
  unfolding IsPlaced
  nothing_placed file bytes offset out h p =
      (omega arith, h, p ∙ sym (append-nil (disk.written file.inner)))

  more_placed :
      (file file' : File F) (bytes : List ℕ) (offset m n : ℕ) (out : Result (Unit {0}) × File F)
      → m ≤ length bytes
      → disk.written file'.inner ≡ disk.written file.inner ++ placed offset (take m bytes)
      → IsPlaced file' (drop m bytes) (offset + m) out n
      → IsPlaced file bytes offset out (m + n)
  unfolding IsPlaced
  more_placed file file' bytes offset m n out h p placed_after =
      let size = length-drop m bytes in
      let most = placed_after.0 in
      (
        omega arith,
        λ q. let all = placed_after.1 q in omega arith,
        placed_after.2
            ∙ ap (λ ps. ps ++ placed (offset + m) (take n (drop m bytes))) p
            ∙ append_assoc (disk.written file.inner) (placed offset (take m bytes))
                (placed (offset + m) (take n (drop m bytes)))
            ∙ ap (λ ps. disk.written file.inner ++ ps) (sym (placed-take offset m n bytes h)),
      )

  loop_round :
      (fuel : ℕ) (file : File F) (bytes : List ℕ) (offset m : ℕ)
      → 0 < length bytes
      → offset + length bytes < 2 ^ 64
      → (write_by file.io file.inner bytes offset).0 ≡ ok m
      → (0 < m → m ≤ length bytes → Places fuel (put file bytes offset) (drop m bytes) (offset + m))
      → Places (suc fuel) file bytes offset
  unfolding Places IsWrite
  loop_round fuel file bytes offset zero some_bytes o p ih =
      let wrote = (write_by-IsWrite file.io file.inner bytes offset).0 0 p in
      let out : Result (Unit {0}) × File F = (err unexpected_eof, put file bytes offset) in
      (
        out,
        round_zero fuel file (put file bytes offset) bytes offset some_bytes
            (write_at_by file bytes offset some_bytes ∙ ap (λ r. (r, put file bytes offset)) p),
        (
          0,
          nothing_placed file bytes offset out (λ q. absurd (ground arith))
              (wrote.1 ∙ append-nil (disk.written file.inner)),
        ),
      )
  loop_round fuel file bytes offset (suc m) some_bytes o p ih =
      let wrote = (write_by-IsWrite file.io file.inner bytes offset).0 (suc m) p in
      let rest = ih (omega arith) wrote.0 in
      let next = sat_add_small offset (suc m) (omega (arith, wrote.0)) in
      (
        rest.0,
        round_ok fuel file (put file bytes offset) bytes offset m some_bytes
              (write_at_by file bytes offset some_bytes ∙ ap (λ r. (r, put file bytes offset)) p)
            ∙ ap (write_exact_loop fuel (put file bytes offset) (drop (suc m) bytes)) next
            ∙ rest.1,
        (
          suc m + rest.2.0,
          more_placed file (put file bytes offset) bytes offset (suc m) rest.2.0 rest.0 wrote.0
              wrote.1 rest.2.1,
        ),
      )

  loop-Places :
      (fuel : ℕ) (file : File F) (bytes : List ℕ) (offset : ℕ)
      → length bytes < fuel
      → offset + length bytes < 2 ^ 64
      → Places fuel file bytes offset
  unfolding Places IsWrite
  loop-Places zero file bytes offset enough o = absurd (omega arith)
  loop-Places (suc fuel) file bytes offset enough o = elim (zero_or_more (length bytes)) [
    | inl no_bytes ↦ (
      (ok tt, file),
      round_done fuel file bytes offset no_bytes,
      (0, nothing_placed file bytes offset (ok tt, file) (λ q. omega arith) refl),
    )
    | inr some_bytes ↦ elim (Result-cases (write_by file.io file.inner bytes offset).0) [
      | inl (m, p) ↦ loop_round fuel file bytes offset m some_bytes o p (λ some_written fits.
          let size = length-drop m bytes in
          loop-Places fuel (put file bytes offset) (drop m bytes) (offset + m) (omega (arith, size))
            (omega (arith, size)))
      | inr (e, p) ↦
          let out : Result (Unit {0}) × File F = (err e, put file bytes offset) in
          (
            out,
            round_err fuel file (put file bytes offset) bytes offset e some_bytes
                (write_at_by file bytes offset some_bytes ∙ ap (λ r. (r, put file bytes offset)) p),
            (
              0,
              nothing_placed file bytes offset out (λ q. absurd (ground arith))
                  ((write_by-IsWrite file.io file.inner bytes offset).1 e p),
            ),
          )
    ]
  ]

  -- `write_exact_at`, whichever way the file is written, which is not opened with O_APPEND, at an
  -- offset from which the bytes end below 2 ^ 64, always comes to an end, however the writes are cut
  -- short. What it has written is a front of the bytes, each in its place and none twice; after a
  -- success it is all of them.
  pub write_exact_at_places :
      (file : File F) (bytes : List ℕ) (offset : ℕ)
      → offset + length bytes < 2 ^ 64
      → (out : Result (Unit {0}) × File F) × (write_exact_at file bytes offset ≡ some out)
        × ((n : ℕ) × (n ≤ length bytes)
            × (out.0 ≡ ok tt → n ≡ length bytes)
            × (disk.written out.1.inner ≡ disk.written file.inner ++ placed offset (take n bytes)))
  unfolding write_exact_at Places IsPlaced
  write_exact_at_places file bytes offset o =
      let done = loop-Places (suc (length bytes)) file bytes offset (omega arith) o in
      (done.0, done.1, (done.2.0, done.2.1.0, done.2.1.1, done.2.1.2))
