-- ===== src/Builder/Choice.antt =====
-- Which driver a runtime gets.
use vibeio.Prelude.{ℕ, ◌≡◌, ◌≢◌, refl, none, ok, ◌⊎◌, inl, inr, arith, Option-cases}
use vibeio.Builder.{
  Kernel, mio, io_uring, io_uring_entries, io_uring_custom, io_uring_custom_entries, RuntimeBuilder,
  Settings, with_driver, uring, build, new_best, chosen,
}

abbrev pub without_choice : {B : Type 0} → RuntimeBuilder B → RuntimeBuilder B
without_choice b = record b { driver_kind = none }

module _ {B : Type 0} ⦃kernel : Kernel B⦄ where
  -- The runtime of a builder without a choice of its driver has io_uring with 4096 entries and the
  -- newer flags; or, where the kernel refuses that, io_uring with 4096 entries and no flags; or, where
  -- it refuses that too, mio. The timer and the batch size are what the builder was told.
  pub build_falls_back :
      (b : RuntimeBuilder B) (s : Settings B)
      → build (without_choice b) ≡ ok s
      → (s.enable_timer ≡ b.timer)
        × (s.batch_size ≡ b.batch)
        × ((s.any_driver ≡ io_uring 4096 kernel.newer_flags)
            ⊎ (kernel.uring_error 4096 kernel.newer_flags ≢ none)
              × ((s.any_driver ≡ io_uring 4096 kernel.plain)
                  ⊎ (kernel.uring_error 4096 kernel.plain ≢ none) × (s.any_driver ≡ mio)))
  unfolding build chosen new_best
  build_falls_back b s r = elim (Option-cases (kernel.uring_error 4096 kernel.newer_flags)) [
    | inl q ↦ (ground arith, ground arith, inl (ground arith))
    | inr (e1, q) ↦ elim (Option-cases (kernel.uring_error 4096 kernel.plain)) [
      | inl q' ↦ (ground arith, ground arith, inr (λ z. ground arith, inl (ground arith)))
      | inr (e2, q') ↦ elim (Option-cases kernel.mio_error) [
        | inl q'' ↦ (
          ground arith,
          ground arith,
          inr (λ z. ground arith, inr (λ z. ground arith, ground arith)),
        )
        | inr (e3, q'') ↦ absurd (ground arith)
      ]
    ]
  ]

  -- A builder that was told the number of entries forgets it in `uring`: the runtime is made as
  -- without that number, and a builder that came with it is thrown away.
  pub uring_forgets_entries :
      (b : RuntimeBuilder B) (entries : ℕ) (builder : B) (f : B → B)
      → (build (uring (with_driver b (io_uring_entries entries)) f)
          ≡ build (with_driver b (io_uring_custom (f kernel.plain))))
        × (build (uring (with_driver b (io_uring_custom_entries entries builder)) f)
            ≡ build (with_driver b (io_uring_custom (f kernel.plain))))
  unfolding uring
  uring_forgets_entries b entries builder f = (refl, refl)
