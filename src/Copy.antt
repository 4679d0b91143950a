-- ===== src/Copy.antt =====
-- `copy` of vibeio/src/io/util.rs, with the cursor of vibeio/src/io/buf.rs. A reader and a writer are
-- interfaces, and a call that waits is one call here.

pub mod Moves
mod Tests
use vibeio.Prelude.{
  ℕ, zero, suc, ◌+◌, ◌-◌, ◌≤◌, ◌^◌, ◌≡◌, Bool, true, false, Option, none, some, List, [], ◌∷◌, ◌++◌,
  Result, ok, err, IoError, write_zero, length, take, drop, min, u64_mod, ◌==◌, if◌then◌else◌,
}

-- `rest r` is what the reader has yet to give. A read is given the buffer's capacity, and no bytes are
-- its end.
pub record AsyncRead (R : Type 0) : Type 0 where
  pub rest : R → List ℕ
  pub read : R → Result (List ℕ) × R
  pub read_ok : (r : R) (bytes : List ℕ) → (read r).0 ≡ ok bytes → rest r ≡ bytes ++ rest (read r).1
  pub read_err : (r : R) (e : IoError) → (read r).0 ≡ err e → rest (read r).1 ≡ rest r

-- `written w` is what the writer has taken. A write takes a part of what it is given, from its front.
pub record AsyncWrite (W : Type 0) : Type 0 where
  pub written : W → List ℕ
  pub write : W → List ℕ → Result ℕ × W
  pub flush : W → Result (Unit {0}) × W
  pub write_ok :
      (w : W) (bytes : List ℕ) (n : ℕ)
      → (write w bytes).0 ≡ ok n
      → (n ≤ length bytes) × (written (write w bytes).1 ≡ written w ++ take n bytes)
  pub write_err :
      (w : W) (bytes : List ℕ) (e : IoError)
      → (write w bytes).0 ≡ err e
      → written (write w bytes).1 ≡ written w
  pub written-flush : (w : W) → written (flush w).1 ≡ written w

-- A buffer, and how much of it is done with.
pub record IoBufWithCursor : Type 0 where
  pub buf : List ℕ
  pub cursor : ℕ

abbrev pub with_cursor : List ℕ → IoBufWithCursor
with_cursor buf = record { buf = buf; cursor = 0 }

abbrev pub advance : IoBufWithCursor → ℕ → IoBufWithCursor
advance b n = record b { cursor = b.cursor + n }

-- The bytes from the cursor on: `buf_len` of them at `as_buf_ptr`.
abbrev pub as_buf : IoBufWithCursor → List ℕ
as_buf b = drop b.cursor b.buf

abbrev pub buf_len : IoBufWithCursor → ℕ
buf_len b = length b.buf - b.cursor

module _ {W : Type 0} ⦃writer : AsyncWrite W⦄ where
  -- The inner loop. Each round moves the cursor by a byte or more, so that a fuel of the buffer's
  -- length is enough.
  pub write_buf : ℕ → W → IoBufWithCursor → Result (Unit {0}) × W
  write_buf zero w b = (ok tt, w)
  write_buf (suc fuel) w b =
      let (result, w') = writer.write w (as_buf b) in
      if buf_len b == 0 then (ok tt, w) else elim result [
        | err e ↦ (err e, w')
        | ok n ↦ if n == 0 then (err write_zero, w') else write_buf fuel w' (advance b n)
      ]

-- `copied.saturating_add(read as u64)`.
abbrev pub sat_add : ℕ → ℕ → ℕ
sat_add a b = min (a + b) (u64_mod - 1)

module _ {R W : Type 0} ⦃reader : AsyncRead R⦄ ⦃writer : AsyncWrite W⦄ where
  -- After the reader's end.
  abbrev pub finish : R → W → ℕ → Result ℕ × R × W
  finish r w copied =
      let (result, w') = writer.flush w in
      elim result [ err e ↦ (err e, r, w') | ok _ ↦ (ok copied, r, w') ]

  -- The outer loop; nothing where the fuel runs out.
  pub copy_loop : ℕ → R → W → ℕ → Option (Result ℕ × R × W)
  unfolding write_buf
  copy_loop zero r w copied = none
  copy_loop (suc fuel) r w copied =
      let (read, r') = reader.read r in
      elim read [
        | err e ↦ some (err e, r', w)
        | ok bytes ↦
            let (result, w') = write_buf (length bytes) w (with_cursor bytes) in
            let rest = copy_loop fuel r' w' (sat_add copied (length bytes)) in
            if length bytes == 0
            then some (finish r' w copied)
            else elim result [ err e ↦ some (err e, r', w') | ok _ ↦ rest ]
      ]
