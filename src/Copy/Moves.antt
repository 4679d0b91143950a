-- ===== src/Copy/Moves.antt =====
-- `copy` moves the reader's bytes to the writer, in order and without loss.
use mathlib.Core.List.{append-nil, append_assoc}
use vibeio.Prelude.{
  ℕ, zero, suc, ◌+◌, ◌≤◌, ◌<◌, ◌^◌, ◌≡◌, refl, sym, ap, ◌∙◌, inl, inr, some, List, [], ◌∷◌, ◌++◌,
  Result, ok, err, write_zero, length, take, drop, arith, take-append-drop, zero-add, suc-add,
  drop-add, length-drop, length-append, ◌==◌, Bool-cases,
}
use vibeio.Prelude.{Result-cases}
use vibeio.Copy.{
  AsyncRead, AsyncWrite, IoBufWithCursor, with_cursor, advance, as_buf, buf_len, write_buf, sat_add,
  finish, copy_loop,
}

take-nil : (b : ℕ) → take {A = ℕ} b [] ≡ []
take-nil zero = refl
take-nil (suc b) = refl

take-add : (a b : ℕ) (xs : List ℕ) → take (a + b) xs ≡ take a xs ++ take b (drop a xs)
take-add zero b xs = rw (zero-add b) refl
take-add (suc a) b [] = rw (suc-add a b) (sym (take-nil b))
take-add (suc a) b (x ∷ xs) = rw (suc-add a b, take-add a b xs) refl

take-front : (xs ys : List ℕ) (m : ℕ) → take (length xs + m) (xs ++ ys) ≡ xs ++ take m ys
take-front [] ys m = rw (zero-add m) refl
take-front (x ∷ xs) ys m = rw (suc-add (length xs) m, take-front xs ys m) refl

length-zero : (xs : List ℕ) → length xs ≡ 0 → xs ≡ []
length-zero [] h = refl
length-zero (x ∷ xs) h = absurd (omega arith)

module _ {W : Type 0} ⦃writer : AsyncWrite W⦄ where
  -- The inner loop writes a front part of the bytes from the cursor on, and all of them if it succeeds.
  write_buf_lem :
      (fuel : ℕ) (w : W) (b : IoBufWithCursor)
      → buf_len b ≤ fuel
      → ((m : ℕ) × (writer.written (write_buf fuel w b).1 ≡ writer.written w ++ take m (as_buf b)))
        × ((write_buf fuel w b).0 ≡ ok tt
            → writer.written (write_buf fuel w b).1 ≡ writer.written w ++ as_buf b)
  unfolding write_buf
  write_buf_lem zero w b h =
      let empty : as_buf b ≡ [] =
        length-zero (as_buf b) (omega (arith, length-drop b.cursor b.buf)) in
      (
        (0, sym (append-nil (writer.written w))),
        λ p. rw empty (sym (append-nil (writer.written w))),
      )
  write_buf_lem (suc fuel) w b h = elim (Bool-cases (buf_len b == 0)) [
    | inl done ↦
        let empty : as_buf b ≡ [] =
          length-zero (as_buf b) (ground (arith, length-drop b.cursor b.buf)) in
        let same : write_buf (suc fuel) w b ≡ (ok tt, w) = ground arith in
        rw same (
          (0, sym (append-nil (writer.written w))),
          λ p. rw empty (sym (append-nil (writer.written w))),
        )
    | inr more ↦ elim (Result-cases (writer.write w (as_buf b)).0) [
      | inr (e, p) ↦
          let w' = (writer.write w (as_buf b)).1 in
          let same : write_buf (suc fuel) w b ≡ (err e, w') = ground arith in
          rw same (
            (0, writer.write_err w (as_buf b) e p ∙ sym (append-nil (writer.written w))),
            λ q. absurd (ground arith),
          )
      | inl (n, p) ↦
          let w' = (writer.write w (as_buf b)).1 in
          let (bound, wrote) = writer.write_ok w (as_buf b) n p in
          elim (Bool-cases (n == 0)) [
            | inl none_written ↦
                let same : write_buf (suc fuel) w b ≡ (err write_zero, w') = ground arith in
                rw same ((n, wrote), λ q. absurd (ground arith))
            | inr some_written ↦
                let same : write_buf (suc fuel) w b ≡ write_buf fuel w' (advance b n) =
                  ground arith in
                let ((m, part), all) = write_buf_lem fuel w' (advance b n) (ground arith) in
                let moved = drop-add b.cursor n b.buf in
                rw same (
                  (
                    n + m,
                    part
                        ∙ rw (wrote, moved, take-add n m (as_buf b))
                            (append_assoc (writer.written w) (take n (as_buf b))
                              (take m (drop n (as_buf b)))),
                  ),
                  λ q.
                      all q
                      ∙ rw (wrote, moved)
                          (append_assoc (writer.written w) (take n (as_buf b)) (drop n (as_buf b))
                            ∙ ap (λ (xs : List ℕ). writer.written w ++ xs)
                                (take-append-drop n (as_buf b))),
                )
          ]
    ]
  ]

module _ {R W : Type 0} ⦃reader : AsyncRead R⦄ ⦃writer : AsyncWrite W⦄ where
  -- What a run of `copy` that began with `copied` bytes has done: the reader gave `data`; a success
  -- counts and writes all of it, a failure has written a front part of it.
  pub IsCopied : R → W → ℕ → Result ℕ × R × W → Type 0
  IsCopied r w copied (result, r', w') =
      (moved : List ℕ) × (reader.rest r ≡ moved ++ reader.rest r')
      × ((m : ℕ) × (writer.written w' ≡ writer.written w ++ take m moved))
      × ((n : ℕ)
          → result ≡ ok n
          → (writer.written w' ≡ writer.written w ++ moved) × (n ≡ copied + length moved))

  finish-IsCopied :
      (r r' : R) (w : W) (copied : ℕ)
      → reader.rest r ≡ reader.rest r'
      → IsCopied r w copied (finish r' w copied)
  unfolding IsCopied
  finish-IsCopied r r' w copied same =
      let back : (finish r' w copied).1 ≡ r' = ground arith in
      let flushed : writer.written (finish r' w copied).2 ≡ writer.written w =
        ground (arith, writer.written-flush w) in
      (
        [],
        same ∙ ap reader.rest (sym back),
        (0, flushed ∙ sym (append-nil (writer.written w))),
        λ n p. (flushed ∙ sym (append-nil (writer.written w)), ground arith),
      )

  front-IsCopied :
      (r r' : R) (w w' : W) (copied copied' : ℕ) (bytes : List ℕ) (after : Result ℕ × R × W)
      → reader.rest r ≡ bytes ++ reader.rest r'
      → writer.written w' ≡ writer.written w ++ bytes
      → copied' ≡ copied + length bytes
      → IsCopied r' w' copied' after
      → IsCopied r w copied after
  unfolding IsCopied
  front-IsCopied r r' w w' copied copied' bytes (result, r'', w'') given full sum h =
      let (moved, rests, (m, part), all) = h in
      let front = append_assoc (writer.written w) bytes in
      (
        bytes ++ moved,
        given
            ∙ ap (λ (xs : List ℕ). bytes ++ xs) rests
            ∙ sym (append_assoc bytes moved (reader.rest r'')),
        (
          length bytes + m,
          part
              ∙ ap (λ (xs : List ℕ). xs ++ take m moved) full
              ∙ front (take m moved)
              ∙ ap (λ (xs : List ℕ). writer.written w ++ xs) (sym (take-front bytes moved m)),
        ),
        λ n t. (
          (all n t).0 ∙ ap (λ (xs : List ℕ). xs ++ moved) full ∙ front moved,
          omega (arith, (all n t).1, sum, length-append bytes moved),
        ),
      )

  -- With more fuel than the reader has bytes, and a count that stays below 2 ^ 64, the loop comes
  -- to its end; a front part of the reader's bytes has then been read, and it stands in the writer
  -- in order: all of it, and its length is the answer, where the loop succeeds, and a front part of
  -- it where it fails.
  pub copy_moves_all :
      (fuel : ℕ) (r : R) (w : W) (copied : ℕ)
      → length (reader.rest r) < fuel
      → copied + length (reader.rest r) < 2 ^ 64
      → (after : Result ℕ × R × W) × (copy_loop fuel r w copied ≡ some after)
        × IsCopied r w copied after
  unfolding copy_loop IsCopied
  copy_moves_all zero r w copied h room = absurd (omega arith)
  copy_moves_all (suc fuel) r w copied h room =
      let r' = (reader.read r).1 in
      elim (Result-cases (reader.read r).0) [
        | inr (e, p) ↦ (
          (err e, r', w),
          ground arith,
          (
            [],
            sym (reader.read_err r e p),
            (0, sym (append-nil (writer.written w))),
            λ n q. absurd (ground arith),
          ),
        )
        | inl (bytes, p) ↦
            let given = reader.read_ok r bytes p in
            let size : length (reader.rest r) ≡ length bytes + length (reader.rest r') =
              ap length given ∙ length-append bytes (reader.rest r') in
            let w' = (write_buf (length bytes) w (with_cursor bytes)).1 in
            let ((m, part), full) =
              write_buf_lem (length bytes) w (with_cursor bytes) (omega arith) in
            elim (Bool-cases (length bytes == 0)) [
              | inl done ↦
                  let empty : bytes ≡ [] = length-zero bytes (ground arith) in
                  (
                    finish r' w copied,
                    ground arith,
                    finish-IsCopied r r' w copied (given ∙ rw empty refl),
                  )
              | inr more ↦ elim (Result-cases (write_buf (length bytes) w (with_cursor bytes)).0) [
                | inr (e, q) ↦ (
                  (err e, r', w'),
                  ground arith,
                  (bytes, given, (m, part), λ n t. absurd (ground arith)),
                )
                | inl (_, q) ↦
                    let sum : sat_add copied (length bytes) ≡ copied + length bytes = omega arith in
                    let (after, runs, copied_rest) =
                      copy_moves_all fuel r' w' (sat_add copied (length bytes)) (ground arith)
                        (omega arith) in
                    (
                      after,
                      ground arith,
                      front-IsCopied r r' w w' copied (sat_add copied (length bytes)) bytes after
                          given (full q) sum copied_rest,
                    )
              ]
            ]
      ]
