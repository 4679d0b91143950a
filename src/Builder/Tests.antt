-- ===== src/Builder/Tests.antt =====
-- A kernel that knows no newer flags, and one without io_uring. The builder of the crate io_uring is a
-- number here: 0 is plain, 1 has the flags.
use vibeio.Prelude.{
  ℕ, zero, suc, ◌≡◌, ◌≢◌, refl, false, Option, none, some, ok, IoError, unsupported, ◌⊎◌,
}
use vibeio.Builder.{
  Kernel, mio, io_uring, RuntimeBuilder, Settings, new, build, new_best, chosen, block_on,
}
use vibeio.Builder.Choice.{build_falls_back}

abbrev error_of : ℕ → ℕ → Option IoError
error_of entries zero = none
error_of entries (suc _) = some unsupported

instance abbrev old_kernel : Kernel ℕ
old_kernel = record { plain = 0; newer_flags = 1; uring_error = error_of; mio_error = none }

abbrev fresh : RuntimeBuilder ℕ
fresh = new

abbrev settings : Settings ℕ
settings = record {
  any_driver = io_uring 4096 0;
  enable_timer = false;
  blocking_pool = none;
  enable_fs_offload = false;
  batch_size = 256;
}

without_flags : build fresh ≡ ok settings
unfolding build chosen new_best
without_flags = refl

build_falls_back_run :
    (settings.enable_timer ≡ fresh.timer)
    × (settings.batch_size ≡ fresh.batch)
    × ((settings.any_driver ≡ io_uring 4096 1)
        ⊎ (error_of 4096 1 ≢ none)
          × ((settings.any_driver ≡ io_uring 4096 0)
              ⊎ (error_of 4096 0 ≢ none) × (settings.any_driver ≡ mio)))
build_falls_back_run = build_falls_back fresh settings without_flags

-- A runtime inside another one.
nested : block_on (some 1) 2 (λ (runtime : ℕ). runtime) ≡ none
unfolding block_on
nested = refl
