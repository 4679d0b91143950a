-- ===== src/Fs/File/Exact.antt =====
-- Reads in place.
use mathlib.Core.List.{append_assoc, append-nil}
use vibeio.Prelude.{
  zero_or_more, take_split, ℕ, zero, suc, ◌+◌, ◌-◌, ◌^◌, ◌≤◌, ◌<◌, ◌≡◌, refl, ◌∙◌, ap, sym, some,
  inl, inr, List, [], ◌∷◌, ◌++◌, Result, ok, err, IoError, unexpected_eof, Result-cases, length,
  take, drop, drop-add, take_all, arith,
}
use vibeio.Copy.{sat_add}
use vibeio.Fs.File.{
  Disk, File, blocking, Buf, room_of, with_slice, read_exact_at, read_exact_loop, read_at, read_by,
  read_at_blocking,
}
use vibeio.Fs.File.Steps.{round_done, round_ok, round_eof, round_err}
use vibeio.Fs.File.Short.{read_at_by, sub_0}
use vibeio.Fs.File.Slice.{length-with_slice, take-with_slice}

pub sat_add_small : (a b : ℕ) → a + b < 2 ^ 64 → sat_add a b ≡ a + b
sat_add_small a b h = omega arith

module _ {F : Type 0} ⦃disk : Disk F⦄ where
  read_by_blocking :
      (f : F) (buf : Buf) (cursor offset : ℕ) (bytes : List ℕ)
      → disk.pread f offset (room_of buf cursor) ≡ ok bytes
      → read_by blocking f buf cursor offset ≡ (ok (length bytes), with_slice buf cursor bytes)
  unfolding read_by read_at_blocking
  read_by_blocking f buf cursor offset bytes p = ground arith

  read_by_failed :
      (f : F) (buf : Buf) (cursor offset : ℕ) (e : IoError)
      → disk.pread f offset (room_of buf cursor) ≡ err e
      → read_by blocking f buf cursor offset ≡ (err e, buf)
  unfolding read_by read_at_blocking
  read_by_failed f buf cursor offset e p = ground arith

  -- What the loop makes of the buffer: its length stays, and a success fills it from the cursor on.
  IsFilled : F → Buf → ℕ → ℕ → Result (Unit {0}) × Buf → Type 0
  IsFilled f buf cursor offset (result, buf') =
      (length buf'.held ≡ length buf.held)
      × (result ≡ ok tt
          → buf'.held
            ≡ take cursor buf.held ++ take (room_of buf cursor) (drop offset (disk.content f)))

  after_read :
      (f : F) (buf : Buf) (cursor offset : ℕ) (bytes : List ℕ) (out : Result (Unit {0}) × Buf)
      → cursor + length bytes ≤ length buf.held
      → bytes ≡ take (length bytes) (drop offset (disk.content f))
      → IsFilled f (with_slice buf cursor bytes) (cursor + length bytes) (offset + length bytes) out
      → IsFilled f buf cursor offset out
  unfolding IsFilled
  after_read f buf cursor offset bytes (result, buf') h same filled =
      let n = length bytes in
      let d = drop offset (disk.content f) in
      let size = length-with_slice buf cursor bytes h in
      let room : room_of (with_slice buf cursor bytes) (cursor + n) ≡ room_of buf cursor - n =
        omega (arith, size) in
      (
        filled.0 ∙ size,
        λ q.
            filled.1 q
            ∙ ap
                (λ front.
                  front
                  ++ take (room_of (with_slice buf cursor bytes) (cursor + n))
                      (drop (offset + n) (disk.content f)))
                (take-with_slice buf cursor bytes h)
            ∙ append_assoc (take cursor buf.held) bytes (
                take (room_of (with_slice buf cursor bytes) (cursor + n))
                  (drop (offset + n) (disk.content f)))
            ∙ ap (λ ys. take cursor buf.held ++ ys)
                (ap (λ m. bytes ++ take m (drop (offset + n) (disk.content f))) room
                  ∙ ap (λ ys. bytes ++ take (room_of buf cursor - n) ys)
                      (drop-add offset n (disk.content f))
                  ∙ ap (λ ys. ys ++ take (room_of buf cursor - n) (drop n d)) same
                  ∙ sym (take_split n (room_of buf cursor) d (omega arith))),
      )

  full_buffer :
      (f : F) (buf : Buf) (cursor offset : ℕ)
      → cursor ≤ length buf.held
      → room_of buf cursor ≡ 0
      → IsFilled f buf cursor offset (ok tt, buf)
  unfolding IsFilled
  full_buffer f buf cursor offset c r =
      let d = drop offset (disk.content f) in
      (
        refl,
        λ q.
            sym (append-nil buf.held)
            ∙ ap (λ ys. ys ++ []) (sym (take_all cursor buf.held (omega arith)))
            ∙ ap (λ m. take cursor buf.held ++ take m d) (sym r),
      )

  failed_read :
      (f : F) (buf : Buf) (cursor offset : ℕ) (e : IoError)
      → IsFilled f buf cursor offset (err e, buf)
  unfolding IsFilled
  failed_read f buf cursor offset e = (refl, λ q. absurd (ground arith))

  unread_end :
      (f : F) (buf : Buf) (cursor offset : ℕ)
      → cursor ≤ length buf.held
      → IsFilled f buf cursor offset (err unexpected_eof, with_slice buf cursor [])
  unfolding IsFilled
  unread_end f buf cursor offset c =
      (length-with_slice buf cursor [] (omega arith), λ q. absurd (ground arith))

  -- What the loop answers for a buffer behind a cursor.
  Fills : ℕ → File F → Buf → ℕ → ℕ → Type 0
  Fills fuel file buf cursor offset =
      (out : Result (Unit {0}) × Buf) × (read_exact_loop fuel file buf cursor offset ≡ some out)
      × IsFilled file.inner buf cursor offset out

  -- A file whose reads are done in place.
  abbrev in_place : F → ℕ → File F
  in_place f own = record { inner = f; io = blocking; cursor = own }

  read_in_place :
      (f : F) (own : ℕ) (buf : Buf) (cursor offset : ℕ) (bytes : List ℕ)
      → 0 < room_of buf cursor
      → disk.pread f offset (room_of buf cursor) ≡ ok bytes
      → read_at (in_place f own) buf cursor offset
        ≡ (ok (length bytes), with_slice buf cursor bytes)
  read_in_place f own buf cursor offset bytes room p =
      read_at_by (in_place f own) buf cursor offset room
      ∙ read_by_blocking f buf cursor offset bytes p

  loop_round :
      (fuel : ℕ) (f : F) (own : ℕ) (buf : Buf) (cursor offset : ℕ) (bytes : List ℕ)
      → 0 < room_of buf cursor
      → offset + room_of buf cursor < 2 ^ 64
      → disk.pread f offset (room_of buf cursor) ≡ ok bytes
      → (0 < length bytes
          → length bytes ≤ room_of buf cursor
          → Fills fuel
              (in_place f own)
              (with_slice buf cursor bytes)
              (cursor + length bytes)
              (offset + length bytes))
      → Fills (suc fuel) (in_place f own) buf cursor offset
  unfolding Fills
  loop_round fuel f own buf cursor offset [] room o p ih = (
    (err unexpected_eof, with_slice buf cursor []),
    round_eof fuel (in_place f own) buf (with_slice buf cursor []) cursor offset room
        (read_in_place f own buf cursor offset [] room p),
    unread_end f buf cursor offset (omega arith),
  )
  loop_round fuel f own buf cursor offset (byte ∷ bytes) room o p ih =
      let got = byte ∷ bytes in
      let slice = with_slice buf cursor got in
      let said = disk.pread_ok f offset (room_of buf cursor) got p in
      let rest = ih (omega arith) said.0 in
      let next = sat_add_small offset (length got) (omega (arith, said.0)) in
      (
        rest.0,
        round_ok fuel (in_place f own) buf slice cursor offset (length bytes) room
              (read_in_place f own buf cursor offset got room p)
            ∙ ap (read_exact_loop fuel (in_place f own) slice (cursor + length got)) next
            ∙ rest.1,
        after_read f buf cursor offset got rest.0 (omega (arith, said.0)) said.1 rest.2,
      )

  loop-Fills :
      (fuel : ℕ) (f : F) (own : ℕ) (buf : Buf) (cursor offset : ℕ)
      → cursor ≤ length buf.held
      → room_of buf cursor < fuel
      → offset + room_of buf cursor < 2 ^ 64
      → Fills fuel (in_place f own) buf cursor offset
  unfolding Fills
  loop-Fills zero f own buf cursor offset c enough o = absurd (omega arith)
  loop-Fills (suc fuel) f own buf cursor offset c enough o =
      elim (zero_or_more (room_of buf cursor)) [
        | inl none_left ↦ (
          (ok tt, buf),
          round_done fuel (in_place f own) buf cursor offset none_left,
          full_buffer f buf cursor offset c none_left,
        )
        | inr room ↦ elim (Result-cases (disk.pread f offset (room_of buf cursor))) [
          | inl (bytes, p) ↦
              let read : 0 < length bytes
                  → length bytes ≤ room_of buf cursor
                  → Fills fuel (in_place f own) (with_slice buf cursor bytes)
                      (cursor + length bytes) (offset + length bytes) =
                λ some_bytes fits.
                  let size = length-with_slice buf cursor bytes (omega arith) in
                  loop-Fills fuel f own (with_slice buf cursor bytes) (cursor + length bytes)
                    (offset + length bytes) (omega (arith, size)) (omega (arith, size))
                    (omega (arith, size)) in
              loop_round fuel f own buf cursor offset bytes room o p read
          | inr (e, p) ↦ (
            (err e, buf),
            round_err fuel (in_place f own) buf buf cursor offset e room (
                read_at_by (in_place f own) buf cursor offset room
                ∙ read_by_failed f buf cursor offset e p),
            failed_read f buf cursor offset e,
          )
        ]
      ]

  -- `read_exact_at` of a file whose reads are done in place, at an offset from which the buffer ends
  -- below 2 ^ 64, always comes to an end, however the reads are cut short. The buffer that comes back
  -- has the length of the one that was given, and where the answer is a success it holds the bytes
  -- of the file from the offset on, and nothing else.
  pub read_exact_at_fills :
      (f : F) (own : ℕ) (buf : Buf) (offset : ℕ)
      → offset + length buf.held < 2 ^ 64
      → (out : Result (Unit {0}) × Buf) × (read_exact_at
            (record { inner = f; io = blocking; cursor = own })
            buf
            offset
          ≡ some out)
        × (length out.1.held ≡ length buf.held)
        × (out.0 ≡ ok tt → out.1.held ≡ take (length buf.held) (drop offset (disk.content f)))
  unfolding read_exact_at Fills IsFilled
  read_exact_at_fills f own buf offset o =
      let whole = sub_0 (length buf.held) in
      let filled =
        loop-Fills (suc (length buf.held)) f own buf 0 offset (omega arith) (omega arith)
          (omega arith) in
      (
        filled.0,
        filled.1,
        filled.2.0,
        λ q. filled.2.1 q ∙ ap (λ n. take n (drop offset (disk.content f))) whole,
      )
