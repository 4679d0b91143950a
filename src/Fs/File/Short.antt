-- ===== src/Fs/File/Short.antt =====
-- Reads by the driver.
use vibeio.Prelude.{ℕ, zero, suc, ◌+◌, ◌-◌, ◌^◌, ◌<◌, ◌≡◌, ◌∙◌, some, List, ◌∷◌, ok, length, arith}
use vibeio.Copy.{sat_add}
use vibeio.Fs.File.{
  Disk, File, FileIo, completion, offloaded, blocking, Buf, room_of, read_exact_at, read_exact_loop,
  read_at, read_completion, read_by,
}
use vibeio.Fs.File.Steps.{round_done, round_ok}

pub sub_0 : (n : ℕ) → n - 0 ≡ n
sub_0 n = omega arith

module _ {F : Type 0} ⦃disk : Disk F⦄ where
  pub read_at_by :
      (file : File F) (buf : Buf) (cursor offset : ℕ)
      → 0 < room_of buf cursor
      → read_at file buf cursor offset ≡ read_by file.io file.inner buf cursor offset
  unfolding read_at
  read_at_by file buf cursor offset h = ground arith

  read_by_completion :
      (io : FileIo) (f : F) (buf : Buf) (offset byte : ℕ) (bytes : List ℕ)
      → io ≡ completion
      → buf.capacity < 2 ^ 32
      → disk.pread f offset buf.capacity ≡ ok (byte ∷ bytes)
      → read_by io f buf 0 offset ≡ (ok (suc (length bytes)), record buf { held = byte ∷ bytes })
  unfolding read_by read_completion
  read_by_completion completion f buf offset byte bytes h small p =
      let same = sub_0 buf.capacity in rw same (ground arith)
  read_by_completion offloaded f buf offset byte bytes h small p = absurd (ground arith)
  read_by_completion blocking f buf offset byte bytes h small p = absurd (ground arith)

  read_at_completion :
      (file : File F) (buf : Buf) (offset byte : ℕ) (bytes : List ℕ)
      → file.io ≡ completion
      → 0 < length buf.held
      → buf.capacity < 2 ^ 32
      → disk.pread file.inner offset buf.capacity ≡ ok (byte ∷ bytes)
      → read_at file buf 0 offset ≡ (ok (suc (length bytes)), record buf { held = byte ∷ bytes })
  read_at_completion file buf offset byte bytes h nonempty small p =
      read_at_by file buf 0 offset (omega arith)
      ∙ read_by_completion file.io file.inner buf offset byte bytes h small p

  loop_completion :
      (fuel : ℕ) (file : File F) (buf : Buf) (offset byte : ℕ) (bytes : List ℕ)
      → 0 < fuel
      → file.io ≡ completion
      → 0 < length buf.held
      → buf.capacity < 2 ^ 32
      → disk.pread file.inner offset buf.capacity ≡ ok (byte ∷ bytes)
      → read_exact_loop (suc fuel) file buf 0 offset
        ≡ some (ok tt, record buf { held = byte ∷ bytes })
  loop_completion zero file buf offset byte bytes some_fuel h nonempty small p =
      absurd (omega arith)
  loop_completion (suc fuel) file buf offset byte bytes some_fuel h nonempty small p =
      let short : Buf = record buf { held = byte ∷ bytes } in
      round_ok (suc fuel) file buf short 0 offset (length bytes) (omega arith)
        (read_at_completion file buf offset byte bytes h nonempty small p)
      ∙ round_done fuel file short (0 + suc (length bytes)) (sat_add offset (suc (length bytes)))
          (omega arith)

  -- A read that the driver does shortens the buffer to what it read: `read_exact_at` of a buffer that
  -- is not empty succeeds after its first read, if that read a byte or more, however short it was,
  -- and the buffer that comes back holds the bytes of that read alone. The buffer's capacity is below
  -- 2 ^ 32.
  pub short_read_ends_early :
      (file : File F) (buf : Buf) (offset byte : ℕ) (bytes : List ℕ)
      → file.io ≡ completion
      → 0 < length buf.held
      → buf.capacity < 2 ^ 32
      → disk.pread file.inner offset buf.capacity ≡ ok (byte ∷ bytes)
      → read_exact_at file buf offset ≡ some (ok tt, record buf { held = byte ∷ bytes })
  unfolding read_exact_at
  short_read_ends_early file buf offset byte bytes h nonempty small p =
      loop_completion (length buf.held) file buf offset byte bytes nonempty h nonempty small p
