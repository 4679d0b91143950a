-- ===== src/Fs/File/Wrote.antt =====
-- What one write of a file does to what has been written.
use vibeio.Prelude.{
  ℕ, suc, ◌+◌, ◌-◌, ◌^◌, ◌≤◌, ◌≡◌, refl, ◌∙◌, ap, ◌⊎◌, inl, inr, List, [], ◌∷◌, ◌++◌, Result, ok,
  err, IoError, invalid_input, Bool-cases, Option-cases, length, take, drop, take_split,
  length-take, arith, ltb,
}
use vibeio.Fs.File.{Disk, FileIo, completion, offloaded, blocking, placed}
use vibeio.Fs.File.Write.{write_by, write_completion, write_at_in_blocking_pool}

placed-append :
    (offset : ℕ) (xs ys : List ℕ)
    → placed offset (xs ++ ys) ≡ placed offset xs ++ placed (offset + length xs) ys
placed-append offset [] ys =
    let same : offset ≡ offset + 0 = omega arith in ap (λ o. placed o ys) same
placed-append offset (x ∷ xs) ys =
    let same : offset + 1 + length xs ≡ offset + suc (length xs) = omega arith in
    ap (λ ps. (offset, x) ∷ ps)
      (placed-append (offset + 1) xs ys ∙ ap (λ o. placed (offset + 1) xs ++ placed o ys) same)

pub placed-take :
    (offset k n : ℕ) (xs : List ℕ)
    → k ≤ length xs
    → placed offset (take (k + n) xs)
      ≡ placed offset (take k xs) ++ placed (offset + k) (take n (drop k xs))
placed-take offset k n xs h =
    let same : k + n - k ≡ n = omega arith in
    ap (placed offset) (take_split k (k + n) xs (omega arith))
    ∙ placed-append offset (take k xs) (take (k + n - k) (drop k xs))
    ∙ ap
        (λ m.
          placed offset (take k xs) ++ placed (offset + length (take k xs)) (take m (drop k xs)))
        same
    ∙ ap (λ m. placed offset (take k xs) ++ placed (offset + m) (take n (drop k xs)))
        (length-take k xs h)

module _ {F : Type 0} ⦃disk : Disk F⦄ where
  -- What a write may do: put a front of the bytes in their place, or fail and put nothing.
  unfoldable pub IsWrite : F → List ℕ → ℕ → Result ℕ × F → Type 0
  IsWrite f bytes offset result =
      ((n : ℕ)
        → result.0 ≡ ok n
        → (n ≤ length bytes)
          × (disk.written result.1 ≡ disk.written f ++ placed offset (take n bytes)))
      × ((e : IoError) → result.0 ≡ err e → disk.written result.1 ≡ disk.written f)

  pwrite-IsWrite :
      (f : F) (bytes : List ℕ) (offset : ℕ) → IsWrite f bytes offset (disk.pwrite f offset bytes)
  unfolding IsWrite
  pwrite-IsWrite f bytes offset = (disk.pwrite_ok f offset bytes, disk.pwrite_err f offset bytes)

  refused-IsWrite :
      (f : F) (bytes : List ℕ) (offset : ℕ) (e : IoError) → IsWrite f bytes offset (err e, f)
  unfolding IsWrite
  refused-IsWrite f bytes offset e = (λ n p. absurd (ground arith), λ e' p. refl)

  write_by-cases :
      (io : FileIo) (f : F) (bytes : List ℕ) (offset : ℕ)
      → (write_by io f bytes offset ≡ disk.pwrite f offset bytes)
        ⊎ ((e : IoError) × (write_by io f bytes offset ≡ (err e, f)))
  unfolding write_by write_completion write_at_in_blocking_pool
  write_by-cases completion f bytes offset = elim (Bool-cases (ltb (length bytes) (2 ^ 32))) [
    | inl p ↦ inl (ground arith)
    | inr p ↦ inr (invalid_input, ground arith)
  ]
  write_by-cases offloaded f bytes offset = elim (Option-cases (disk.pool_error f)) [
    | inl p ↦ inl (ground arith)
    | inr (e, p) ↦ inr (e, ground arith)
  ]
  write_by-cases blocking f bytes offset = inl refl

  pub write_by-IsWrite :
      (io : FileIo) (f : F) (bytes : List ℕ) (offset : ℕ)
      → IsWrite f bytes offset (write_by io f bytes offset)
  write_by-IsWrite io f bytes offset = elim (write_by-cases io f bytes offset) [
    | inl p ↦ rw p (pwrite-IsWrite f bytes offset)
    | inr (e, p) ↦ rw p (refused-IsWrite f bytes offset e)
  ]
