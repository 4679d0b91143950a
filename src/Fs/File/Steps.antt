-- ===== src/Fs/File/Steps.antt =====
-- The rounds of `read_exact_at`.
use vibeio.Prelude.{ℕ, suc, ◌+◌, ◌<◌, ◌≡◌, some, ok, err, IoError, unexpected_eof, arith}
use vibeio.Copy.{sat_add}
use vibeio.Fs.File.{Disk, File, Buf, room_of, read_at, read_exact_loop}

module _ {F : Type 0} ⦃disk : Disk F⦄ where
  pub round_done :
      (fuel : ℕ) (file : File F) (buf : Buf) (cursor offset : ℕ)
      → room_of buf cursor ≡ 0
      → read_exact_loop (suc fuel) file buf cursor offset ≡ some (ok tt, buf)
  unfolding read_exact_loop
  round_done fuel file buf cursor offset h = ground arith

  pub round_ok :
      (fuel : ℕ) (file : File F) (buf buf' : Buf) (cursor offset n : ℕ)
      → 0 < room_of buf cursor
      → read_at file buf cursor offset ≡ (ok (suc n), buf')
      → read_exact_loop (suc fuel) file buf cursor offset
        ≡ read_exact_loop fuel file buf' (cursor + suc n) (sat_add offset (suc n))
  unfolding read_exact_loop
  round_ok fuel file buf buf' cursor offset n h p = ground arith

  pub round_eof :
      (fuel : ℕ) (file : File F) (buf buf' : Buf) (cursor offset : ℕ)
      → 0 < room_of buf cursor
      → read_at file buf cursor offset ≡ (ok 0, buf')
      → read_exact_loop (suc fuel) file buf cursor offset ≡ some (err unexpected_eof, buf')
  unfolding read_exact_loop
  round_eof fuel file buf buf' cursor offset h p = ground arith

  pub round_err :
      (fuel : ℕ) (file : File F) (buf buf' : Buf) (cursor offset : ℕ) (e : IoError)
      → 0 < room_of buf cursor
      → read_at file buf cursor offset ≡ (err e, buf')
      → read_exact_loop (suc fuel) file buf cursor offset ≡ some (err e, buf')
  unfolding read_exact_loop
  round_err fuel file buf buf' cursor offset e h p = ground arith
