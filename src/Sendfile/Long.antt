-- ===== src/Sendfile/Long.antt =====
-- Sending 2 ^ 32 bytes, or a multiple of it, through the pipe of vibeio/src/io/sendfile.rs.
use vibeio.Prelude.{
  ℕ, suc, ◌+◌, ◌-◌, ◌*◌, ◌%◌, ◌^◌, ◌<◌, ◌≡◌, refl, ap, ◌∙◌, true, false, some, ok, arith,
}
use vibeio.Sendfile.{Splices, splice_len, sendfile_exact, completion_loop}
use vibeio.Sendfile.Fill.{fill_end}
use vibeio.Sendfile.Empty.{empty_idle}
use vibeio.Sendfile.Pipe.{loop_done, round_done, completion_with_pipe}

the_fuel : (len : ℕ) → 2 * len + 2 ≡ suc (suc (2 * len))
the_fuel len = omega arith

module _ {D : Type 0} ⦃splices : Splices D⦄ where
  -- The kernel is asked for no bytes and gives none, which is taken for the end of the file: the call
  -- succeeds with 0, however many bytes the file has.
  pub long_pipe_sends_nothing :
      (d d' : D) (len : ℕ)
      → 0 < len
      → len % 2 ^ 32 ≡ 0
      → (splices.pipe2 d).0 ≡ ok tt
      → splices.splice_in (splices.pipe2 d).1 0 ≡ (ok 0, d')
      → sendfile_exact true d len ≡ some (ok 0, d')
  unfolding sendfile_exact splice_len
  long_pipe_sends_nothing d d' len h p q r =
      let piped = (splices.pipe2 d).1 in
      let asked : splice_len (len - 0) ≡ 0 = omega arith in
      let spliced : splices.splice_in piped (splice_len (len - 0)) ≡ (ok 0, d') = rw asked r in
      let filled = fill_end piped len 0 h (ap (λ o. o.0) spliced) in
      completion_with_pipe d len tt q
      ∙ ap (λ fuel. completion_loop fuel piped len 0 0 false) (the_fuel len)
      ∙ round_done (suc (2 * len)) piped d' d' len 0 0 0 0 false true (ground arith)
          (filled ∙ ap (λ o. (ok (0, true), o.1)) spliced) (empty_idle d' 0 refl)
      ∙ loop_done (2 * len) d' len 0 0 true (ground arith)
