-- ===== src/Fs/File/Write.antt =====
-- `write_at`, `write_exact_at` and `AsyncWrite` of `File`, of vibeio/src/fs/file.rs. A buffer is given
-- as its bytes from its cursor on.
use vibeio.Prelude.{
  ℕ, zero, suc, ◌^◌, Option, none, some, List, Result, ok, err, invalid_input, unexpected_eof,
  length, drop, ltb, ◌==◌, if◌then◌else◌,
}
use vibeio.Copy.{sat_add}
use vibeio.Fs.File.{Disk, File, FileIo, completion, offloaded, blocking}

module _ {F : Type 0} ⦃disk : Disk F⦄ where
  -- `WriteAtOp`, which refuses a length of 2 ^ 32 or more.
  unfoldable pub write_completion : F → List ℕ → ℕ → Result ℕ × F
  write_completion f bytes offset =
      if ltb (length bytes) (2 ^ 32) then disk.pwrite f offset bytes else (err invalid_input, f)

  unfoldable pub write_at_in_blocking_pool : F → List ℕ → ℕ → Result ℕ × F
  write_at_in_blocking_pool f bytes offset = elim (disk.pool_error f) [
    | some e ↦ (err e, f)
    | none ↦ disk.pwrite f offset bytes
  ]

  unfoldable pub write_by : FileIo → F → List ℕ → ℕ → Result ℕ × F
  unfolding write_completion write_at_in_blocking_pool
  write_by completion f bytes offset = write_completion f bytes offset
  write_by offloaded f bytes offset = write_at_in_blocking_pool f bytes offset
  write_by blocking f bytes offset = disk.pwrite f offset bytes

  unfoldable pub write_at : File F → List ℕ → ℕ → Result ℕ × File F
  write_at file bytes offset =
      if length bytes == 0
      then (ok 0, file)
      else (let result = write_by file.io file.inner bytes offset in
          (result.0, record file { inner = result.1 }))

  -- The loop of `write_exact_at`; nothing where the fuel is used up.
  unfoldable pub write_exact_loop : ℕ → File F → List ℕ → ℕ → Option (Result (Unit {0}) × File F)
  write_exact_loop zero file bytes offset = none
  write_exact_loop (suc fuel) file bytes offset =
      let result = write_at file bytes offset in
      if length bytes == 0 then some (ok tt, file) else elim result.0 [
        | err e ↦ some (err e, result.1)
        | ok zero ↦ some (err unexpected_eof, result.1)
        | ok (suc n) ↦ write_exact_loop fuel result.1 (drop (suc n) bytes) (sat_add offset (suc n))
      ]

  -- A round writes a byte or more.
  unfoldable pub write_exact_at : File F → List ℕ → ℕ → Option (Result (Unit {0}) × File F)
  unfolding write_exact_loop
  write_exact_at file bytes offset = write_exact_loop (suc (length bytes)) file bytes offset

  -- `AsyncWrite::write`.
  unfoldable pub write : File F → List ℕ → Result ℕ × File F
  write file bytes =
      let result = write_at file bytes file.cursor in
      elim result.0 [
        | err e ↦ (err e, result.1)
        | ok n ↦ (ok n, record result.1 { cursor = sat_add file.cursor n })
      ]
