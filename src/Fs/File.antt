-- ===== src/Fs/File.antt =====
-- `File` of vibeio/src/fs/file.rs, on Unix: its reads and writes at an offset and at its cursor. The
-- file of the operating system is the interface `Disk`, and a call that waits is one call here.
mod Steps
mod Slice
pub mod Exact
pub mod Short
pub mod Write
mod Wrote
pub mod Placed
mod Tests
use vibeio.Prelude.{
  ℕ, zero, suc, ◌+◌, ◌-◌, ◌*◌, ◌^◌, ◌≤◌, ◌≡◌, Bool, true, false, Option, none, some, List, [], ◌∷◌,
  ◌++◌, Result, ok, err, IoError, invalid_input, unexpected_eof, length, take, drop, ltb, ◌==◌,
  if◌then◌else◌,
}
use vibeio.Copy.{sat_add}

-- Bytes with the offsets that they stand at, from the first one's on.
abbrev pub placed : ℕ → List ℕ → List (ℕ × ℕ)
placed offset [] = []
placed offset (byte ∷ bytes) = (offset, byte) ∷ placed (offset + 1) bytes

-- What a file is made of: `pread` and `pwrite` at an offset, and what stops the blocking pool from
-- doing them. `written` is what has been put where, oldest first. The file is not opened with
-- O_APPEND, with which Linux puts the bytes of a `pwrite` at the end whatever the offset is.
pub record Disk (F : Type 0) : Type 0 where
  pub content : F → List ℕ
  pub written : F → List (ℕ × ℕ)
  pub pread : F → ℕ → ℕ → Result (List ℕ)
  pub pwrite : F → ℕ → List ℕ → Result ℕ × F
  pub pool_error : F → Option IoError
  pub pwrite_ok :
      (f : F) (offset : ℕ) (bytes : List ℕ) (n : ℕ)
      → (pwrite f offset bytes).0 ≡ ok n
      → (n ≤ length bytes)
        × (written (pwrite f offset bytes).1 ≡ written f ++ placed offset (take n bytes))
  pub pwrite_err :
      (f : F) (offset : ℕ) (bytes : List ℕ) (e : IoError)
      → (pwrite f offset bytes).0 ≡ err e
      → written (pwrite f offset bytes).1 ≡ written f
  pub pread_ok :
      (f : F) (offset room : ℕ) (bytes : List ℕ)
      → pread f offset room ≡ ok bytes
      → (length bytes ≤ room) × (bytes ≡ take (length bytes) (drop offset (content f)))

-- How a `File` does its work: as operations of the driver, in the blocking pool, or in place.
pub data FileIo : Type 0 where
  completion : FileIo
  offloaded : FileIo
  blocking : FileIo

pub record File (F : Type 0) : Type 0 where
  pub inner : F
  pub io : FileIo
  pub cursor : ℕ

-- A `Vec<u8>`: the bytes up to its length, and its capacity.
pub record Buf : Type 0 where
  pub held : List ℕ
  pub capacity : ℕ

-- `set_buf_init` behind a cursor, after a read into the buffer's memory from there.
abbrev pub with_init : Buf → ℕ → List ℕ → Buf
with_init buf cursor bytes = record buf { held = take cursor buf.held ++ bytes }

-- A read into the slice of the buffer's bytes from the cursor on.
abbrev pub with_slice : Buf → ℕ → List ℕ → Buf
with_slice buf cursor bytes = record buf {
  held = take cursor buf.held ++ (bytes ++ drop (cursor + length bytes) buf.held);
}

-- `buf_len` and `buf_capacity` behind a cursor.
abbrev pub room_of : Buf → ℕ → ℕ
room_of buf cursor = length buf.held - cursor

abbrev pub capacity_of : Buf → ℕ → ℕ
capacity_of buf cursor = buf.capacity - cursor

module _ {F : Type 0} ⦃disk : Disk F⦄ where
  -- `ReadAtOp`, which refuses a length of 2 ^ 32 or more.
  unfoldable pub read_completion : F → Buf → ℕ → ℕ → Result ℕ × Buf
  read_completion f buf cursor offset =
      if ltb (capacity_of buf cursor) (2 ^ 32)
      then elim (disk.pread f offset (capacity_of buf cursor)) [
        | err e ↦ (err e, buf)
        | ok bytes ↦ (ok (length bytes), with_init buf cursor bytes)
      ]
      else (err invalid_input, buf)

  unfoldable pub read_at_blocking : F → Buf → ℕ → ℕ → Result ℕ × Buf
  read_at_blocking f buf cursor offset = elim (disk.pread f offset (room_of buf cursor)) [
    | err e ↦ (err e, buf)
    | ok bytes ↦ (ok (length bytes), with_slice buf cursor bytes)
  ]

  unfoldable pub read_at_in_blocking_pool : F → Buf → ℕ → ℕ → Result ℕ × Buf
  unfolding read_at_blocking
  read_at_in_blocking_pool f buf cursor offset = elim (disk.pool_error f) [
    | some e ↦ (err e, buf)
    | none ↦ read_at_blocking f buf cursor offset
  ]

  unfoldable pub read_by : FileIo → F → Buf → ℕ → ℕ → Result ℕ × Buf
  unfolding read_completion read_at_in_blocking_pool read_at_blocking
  read_by completion f buf cursor offset = read_completion f buf cursor offset
  read_by offloaded f buf cursor offset = read_at_in_blocking_pool f buf cursor offset
  read_by blocking f buf cursor offset = read_at_blocking f buf cursor offset

  -- `read_at`, into a buffer behind a cursor.
  unfoldable pub read_at : File F → Buf → ℕ → ℕ → Result ℕ × Buf
  unfolding read_by
  read_at file buf cursor offset =
      if room_of buf cursor == 0 then (ok 0, buf) else read_by file.io file.inner buf cursor offset

  -- The loop of `read_exact_at`; nothing where the fuel is used up.
  unfoldable pub read_exact_loop : ℕ → File F → Buf → ℕ → ℕ → Option (Result (Unit {0}) × Buf)
  unfolding read_at
  read_exact_loop zero file buf cursor offset = none
  read_exact_loop (suc fuel) file buf cursor offset =
      let read = read_at file buf cursor offset in
      if room_of buf cursor == 0 then some (ok tt, buf) else elim read.0 [
        | err e ↦ some (err e, read.1)
        | ok zero ↦ some (err unexpected_eof, read.1)
        | ok (suc n) ↦ read_exact_loop fuel file read.1 (cursor + suc n) (sat_add offset (suc n))
      ]

  -- A round reads a byte or more of the buffer's.
  unfoldable pub read_exact_at : File F → Buf → ℕ → Option (Result (Unit {0}) × Buf)
  unfolding read_exact_loop
  read_exact_at file buf offset = read_exact_loop (suc (length buf.held)) file buf 0 offset

  -- `AsyncRead::read`.
  unfoldable pub read : File F → Buf → Result ℕ × Buf × File F
  unfolding read_at
  read file buf =
      let result = read_at file buf 0 file.cursor in
      elim result.0 [
        | err e ↦ (err e, result.1, file)
        | ok n ↦ (ok n, result.1, record file { cursor = sat_add file.cursor n })
      ]
