-- ===== src/Signal/Wire.antt =====
-- The pipe between the handler and the dispatch thread.
use mathlib.Core.List.{append_assoc}
use vibeio.Prelude.{
  ℕ, ◌^◌, ◌<◌, ◌≡◌, refl, ap, ◌∙◌, Bool, true, false, List, [], ◌∷◌, ◌++◌, arith, All,
}
use vibeio.Signal.{
  to_ne_bytes, from_ne_bytes, take_byte, take_bytes, Read, got, end, failed, dispatch_loop,
}

-- What the handler writes for a list of signals, and what the reads bring.
unfoldable pub written : Bool → List ℕ → List ℕ
written little [] = []
written little (signal ∷ signals) = to_ne_bytes little signal ++ written little signals

unfoldable pub brought : List Read → List ℕ
brought [] = []
brought (got bytes ∷ reads) = bytes ++ brought reads
brought (end ∷ reads) = brought reads
brought (failed e ∷ reads) = brought reads

take_none : (little : Bool) (held : List ℕ) → take_bytes little held [] ≡ ([], held)
unfolding take_bytes
take_none little held = refl

take_bytes-append :
    (little : Bool) (pending xs ys : List ℕ)
    → let first = take_bytes little pending xs in
      let rest = take_bytes little first.1 ys in
      take_bytes little pending (xs ++ ys) ≡ (first.0 ++ rest.0, rest.1)
unfolding take_bytes
take_bytes-append little pending [] ys = refl
take_bytes-append little pending (x ∷ xs) ys =
    let first = take_byte little pending x in
    ground (
      arith,
      take_bytes-append little first.1 xs ys,
      append_assoc first.0 (take_bytes little first.1 xs).0
          (take_bytes little (take_bytes little first.1 xs).1 ys).0,
    )

-- The reads are one read of all their bytes.
dispatch_loop-brought :
    (little : Bool) (pending : List ℕ) (reads : List Read)
    → dispatch_loop little pending reads ≡ take_bytes little pending (brought reads)
unfolding dispatch_loop brought
dispatch_loop-brought little pending [] = refl
dispatch_loop-brought little pending (end ∷ reads) = dispatch_loop-brought little pending reads
dispatch_loop-brought little pending (failed e ∷ reads) = dispatch_loop-brought little pending reads
dispatch_loop-brought little pending (got bytes ∷ reads) = ground (
  arith,
  take_bytes-append little pending bytes (brought reads),
  dispatch_loop-brought little (take_bytes little pending bytes).1 reads,
)

take_signal :
    (little : Bool) (signal : ℕ)
    → signal < 2 ^ 31
    → take_bytes little [] (to_ne_bytes little signal) ≡ (signal ∷ [], [])
unfolding take_bytes to_ne_bytes from_ne_bytes
take_signal true signal h = ap (λ n. (n ∷ [], [])) (omega arith)
take_signal false signal h = ap (λ n. (n ∷ [], [])) (omega arith)

take_written :
    (little : Bool) (signals : List ℕ)
    → All (λ signal. signal < 2 ^ 31) signals
    → take_bytes little [] (written little signals) ≡ (signals, [])
unfolding written
take_written little [] h = take_none little []
take_written little (signal ∷ signals) h = ground (
  arith,
  take_bytes-append little [] (to_ne_bytes little signal) (written little signals),
  take_signal little signal h.0,
  take_written little signals h.1,
)

-- However the bytes that the handler wrote are cut into reads, and whatever ends and errors come
-- between the reads, the dispatch thread dispatches the signals that were written, in their order, and
-- keeps no byte back. The numbers of the signals are those of an i32 that is not negative.
pub dispatch_loop-written :
    (little : Bool) (signals : List ℕ) (reads : List Read)
    → All (λ signal. signal < 2 ^ 31) signals
    → brought reads ≡ written little signals
    → dispatch_loop little [] reads ≡ (signals, [])
dispatch_loop-written little signals reads h p =
    dispatch_loop-brought little [] reads
    ∙ ap (take_bytes little []) p
    ∙ take_written little signals h
