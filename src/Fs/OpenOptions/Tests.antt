-- ===== src/Fs/OpenOptions/Tests.antt =====
-- Runs of opening at fixed options.
use vibeio.Prelude.{
  ℕ, ◌+◌, ◌≡◌, refl, true, none, some, List, [], ◌∷◌, ok, err, invalid_input, arith,
}
use vibeio.Op.Open
use vibeio.Fs.File.{completion, blocking}
use vibeio.Fs.OpenOptions
use vibeio.Fs.OpenOptions.{
  OpenOptions, Files, o_trunc, validate, open_flags, open_blocking, open_by_driver, open_file,
  build_open_op, initial_cursor_for_append, from_std_with_cursor,
}
use vibeio.Fs.OpenOptions.Agree.{open_by_driver-open_blocking, append_truncates_by_driver}

-- Opened files that are known by their flags, with seven bytes each.
instance abbrev flagged : Files ℕ
flagged = record {
  open_at = λ path flags mode. ok flags;
  len = λ f. ok 7;
  pool_error = none;
  register = λ f. true;
}

abbrev log_path : List ℕ
log_path = 108 ∷ 111 ∷ 103 ∷ []

abbrev appending : OpenOptions
appending = record OpenOptions.new { append = true; create = true }

abbrev appending_and_truncating : OpenOptions
appending_and_truncating = record appending { truncate = true }

append_run :
    open_file {F = ℕ} completion appending log_path
    ≡ ok (record { inner = 525377; io = completion; cursor = 7 })
unfolding open_file validate open_by_driver build_open_op Open.new open_flags
    initial_cursor_for_append from_std_with_cursor
append_run = refl

nothing_to_open_run : open_file {F = ℕ} blocking OpenOptions.new log_path ≡ err invalid_input
unfolding open_file validate open_by_driver build_open_op Open.new open_flags
    initial_cursor_for_append from_std_with_cursor
nothing_to_open_run = refl

open_by_driver-open_blocking_example :
    open_by_driver {F = ℕ} appending log_path ≡ open_blocking {F = ℕ} appending log_path
unfolding validate
open_by_driver-open_blocking_example =
    open_by_driver-open_blocking appending log_path refl (ground arith)

append_truncates_by_driver_run :
    (validate appending_and_truncating ≡ ok tt)
    × ((flags : ℕ) × (open_flags appending ≡ some flags)
        × (open_by_driver {F = ℕ} appending_and_truncating log_path ≡ ok (flags + o_trunc)))
    × (open_blocking {F = ℕ} appending_and_truncating log_path ≡ err invalid_input)
append_truncates_by_driver_run =
    append_truncates_by_driver appending_and_truncating log_path refl refl refl refl
