-- ===== src/Fs/File/Slice.antt =====
-- A read into a slice of a buffer.
use mathlib.Core.List.{append_assoc}
use vibeio.Prelude.{
  take_self, length-take, ℕ, ◌+◌, ◌≤◌, ◌≡◌, ◌∙◌, ap, sym, List, ◌++◌, length, length-append, take,
  drop, length-drop, arith,
}
use vibeio.Fs.File.{Buf, with_slice}

-- The slice of a buffer after a read of some bytes into it.
pub length-with_slice :
    (buf : Buf) (cursor : ℕ) (bytes : List ℕ)
    → cursor + length bytes ≤ length buf.held
    → length (with_slice buf cursor bytes).held ≡ length buf.held
length-with_slice buf cursor bytes h = omega (
  arith,
  length-append (take cursor buf.held) (bytes ++ drop (cursor + length bytes) buf.held),
  length-append bytes (drop (cursor + length bytes) buf.held),
  length-take cursor buf.held (omega arith),
  length-drop (cursor + length bytes) buf.held,
)

pub take-with_slice :
    (buf : Buf) (cursor : ℕ) (bytes : List ℕ)
    → cursor + length bytes ≤ length buf.held
    → take (cursor + length bytes) (with_slice buf cursor bytes).held
      ≡ take cursor buf.held ++ bytes
take-with_slice buf cursor bytes h =
    let front = take cursor buf.held ++ bytes in
    let rest = drop (cursor + length bytes) buf.held in
    let size : length front ≡ cursor + length bytes = omega (
      arith,
      length-append (take cursor buf.held) bytes,
      length-take cursor buf.held (omega arith),
    ) in
    let same : front ++ rest ≡ (with_slice buf cursor bytes).held =
      append_assoc (take cursor buf.held) bytes rest in
    ap (λ k. take k (with_slice buf cursor bytes).held) (sym size)
    ∙ ap (take (length front)) (sym same)
    ∙ take_self front rest
