-- ===== src/Wrap/WriteAll.antt =====
-- The future of `AsyncWrap::poll_write`, of vibeio/src/util/async_wrap.rs: its loop that writes the
-- whole buffer, over the interface of a writer.
use mathlib.Core.List.{append_assoc, append-nil}
use vibeio.Prelude.{
  zero_or_more, ℕ, zero, suc, ◌+◌, ◌-◌, ◌≤◌, ◌<◌, ◌≡◌, ◌≢◌, refl, sym, ap, ◌∙◌, inl, inr, Option,
  none, some, List, ◌++◌, Result, ok, err, IoError, Result-cases, length, length-drop, take, drop,
  take_split, arith, ◌==◌, if◌then◌else◌,
}
use vibeio.Copy.{AsyncWrite}

-- Whether a writer takes a byte or more of a buffer that has any, where it does not fail.
unfoldable pub TakesSome : (W : Type 0) → ⦃writer : AsyncWrite W⦄ → Type 0
TakesSome W ⦃writer⦄ = (w : W) (bytes : List ℕ) → 0 < length bytes → (writer.write w bytes).0 ≢ ok 0

module _ {W : Type 0} ⦃writer : AsyncWrite W⦄ where
  -- The loop, with what it has written so far; nothing where the fuel is used up.
  unfoldable pub write_all : ℕ → W → List ℕ → ℕ → Option (Result ℕ × W)
  write_all zero w buf total_written = none
  write_all (suc fuel) w buf total_written =
      let result = writer.write w buf in
      if length buf == 0 then some (ok total_written, w) else elim result.0 [
        | err e ↦ some (err e, result.1)
        | ok n ↦ write_all fuel result.1 (drop n buf) (total_written + n)
      ]

  write_all_done :
      (fuel : ℕ) (w : W) (buf : List ℕ) (total : ℕ)
      → length buf ≡ 0
      → write_all (suc fuel) w buf total ≡ some (ok total, w)
  unfolding write_all
  write_all_done fuel w buf total h = ground arith

  write_all_err :
      (fuel : ℕ) (w : W) (buf : List ℕ) (total : ℕ) (e : IoError)
      → 0 < length buf
      → (writer.write w buf).0 ≡ err e
      → write_all (suc fuel) w buf total ≡ some (err e, (writer.write w buf).1)
  unfolding write_all
  write_all_err fuel w buf total e h p = ground arith

  write_all_more :
      (fuel : ℕ) (w : W) (buf : List ℕ) (total n : ℕ)
      → 0 < length buf
      → (writer.write w buf).0 ≡ ok n
      → write_all (suc fuel) w buf total
        ≡ write_all fuel (writer.write w buf).1 (drop n buf) (total + n)
  unfolding write_all
  write_all_more fuel w buf total n h p = ground arith

  -- A writer that takes nothing more, and says so with a success, keeps the loop busy for ever.
  pub write_all_never_ends :
      (fuel : ℕ) (w : W) (buf : List ℕ) (total : ℕ)
      → 0 < length buf
      → writer.write w buf ≡ (ok 0, w)
      → write_all fuel w buf total ≡ none
  unfolding write_all
  write_all_never_ends zero w buf total h p = refl
  write_all_never_ends (suc fuel) w buf total h p =
      write_all_more fuel w buf total 0 h (ap (λ r. r.0) p)
      ∙ ap (λ w'. write_all fuel w' (drop 0 buf) (total + 0)) (ap (λ r. r.1) p)
      ∙ write_all_never_ends fuel w buf (total + 0) h p

  -- What the loop answers: a front of the buffer has been written, and all of it after a success.
  IsWritten : W → List ℕ → ℕ → Result ℕ × W → ℕ → Type 0
  IsWritten w buf total out n =
      (n ≤ length buf)
      × (writer.written out.1 ≡ writer.written w ++ take n buf)
      × ((k : ℕ) → out.0 ≡ ok k → (n ≡ length buf) × (k ≡ total + n))

  nothing-IsWritten :
      (w w' : W) (buf : List ℕ) (total : ℕ) (answer : Result ℕ)
      → writer.written w' ≡ writer.written w
      → ((k : ℕ) → answer ≡ ok k → (0 ≡ length buf) × (k ≡ total + 0))
      → IsWritten w buf total (answer, w') 0
  unfolding IsWritten
  nothing-IsWritten w w' buf total answer p said =
      (omega arith, p ∙ sym (append-nil (writer.written w)), said)

  more-IsWritten :
      (w : W) (buf : List ℕ) (total m n : ℕ) (out : Result ℕ × W)
      → (writer.write w buf).0 ≡ ok m
      → IsWritten (writer.write w buf).1 (drop m buf) (total + m) out n
      → IsWritten w buf total out (m + n)
  unfolding IsWritten
  more-IsWritten w buf total m n out p rest =
      let wrote = writer.write_ok w buf m p in
      let size = length-drop m buf in
      let left : m + n - m ≡ n = omega arith in
      (
        omega (arith, rest.0, wrote.0),
        rest.1
            ∙ ap (λ xs. xs ++ take n (drop m buf)) wrote.1
            ∙ append_assoc (writer.written w) (take m buf) (take n (drop m buf))
            ∙ ap (λ xs. writer.written w ++ xs)
                (ap (λ k. take m buf ++ take k (drop m buf)) (sym left)
                  ∙ sym (take_split m (m + n) buf (omega arith))),
        λ k q. let told = rest.2 k q in (omega (arith, told.0, wrote.0), omega (arith, told.1)),
      )

  Writes : ℕ → W → List ℕ → ℕ → Type 0
  Writes fuel w buf total =
      (out : Result ℕ × W) × (write_all fuel w buf total ≡ some out)
      × ((n : ℕ) × IsWritten w buf total out n)

  round-Writes :
      (fuel : ℕ) (w : W) (buf : List ℕ) (total m : ℕ)
      → TakesSome W
      → 0 < length buf
      → (writer.write w buf).0 ≡ ok m
      → (0 < m → Writes fuel (writer.write w buf).1 (drop m buf) (total + m))
      → Writes (suc fuel) w buf total
  unfolding Writes TakesSome
  round-Writes fuel w buf total zero takes h p ih = absurd (takes w buf h p)
  round-Writes fuel w buf total (suc m) takes h p ih =
      let rest = ih (omega arith) in
      (
        rest.0,
        write_all_more fuel w buf total (suc m) h p ∙ rest.1,
        (suc m + rest.2.0, more-IsWritten w buf total (suc m) rest.2.0 rest.0 p rest.2.1),
      )

  loop-Writes :
      (fuel : ℕ) (w : W) (buf : List ℕ) (total : ℕ)
      → TakesSome W
      → length buf < fuel
      → Writes fuel w buf total
  unfolding Writes
  loop-Writes zero w buf total takes enough = absurd (omega arith)
  loop-Writes (suc fuel) w buf total takes enough = elim (zero_or_more (length buf)) [
    | inl h ↦ (
      (ok total, w),
      write_all_done fuel w buf total h,
      (
        0,
        nothing-IsWritten w w buf total (ok total) refl
            (λ k q. let same : total ≡ k = cc in (omega arith, omega arith)),
      ),
    )
    | inr h ↦ elim (Result-cases (writer.write w buf).0) [
      | inl (m, p) ↦ round-Writes fuel w buf total m takes h p (λ some_written.
          let size = length-drop m buf in
          loop-Writes fuel (writer.write w buf).1 (drop m buf) (total + m) takes
            (omega (arith, size)))
      | inr (e, p) ↦ (
        (err e, (writer.write w buf).1),
        write_all_err fuel w buf total e h p,
        (
          0,
          nothing-IsWritten w (writer.write w buf).1 buf total (err e) (writer.write_err w buf e p)
              (λ k q. absurd (ground arith)),
        ),
      )
    ]
  ]

  -- Of a writer that takes a byte or more of every buffer that has any, where it does not fail, the
  -- loop comes to its end: a front of the buffer has been written then, in order, and after a success
  -- it is all of the buffer, and its length is the answer.
  pub write_all_ends :
      (w : W) (buf : List ℕ)
      → TakesSome W
      → (out : Result ℕ × W) × (write_all (suc (length buf)) w buf 0 ≡ some out)
        × ((n : ℕ) × (n ≤ length buf)
            × (writer.written out.1 ≡ writer.written w ++ take n buf)
            × ((k : ℕ) → out.0 ≡ ok k → (n ≡ length buf) × (k ≡ length buf)))
  unfolding Writes IsWritten
  write_all_ends w buf takes =
      let done = loop-Writes (suc (length buf)) w buf 0 takes (omega arith) in
      (
        done.0,
        done.1,
        (
          done.2.0,
          done.2.1.0,
          done.2.1.1,
          λ k q. let told = done.2.1.2 k q in (told.0, omega (arith, told.0, told.1)),
        ),
      )
