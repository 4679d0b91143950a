-- ===== src/Op/Dropped.antt =====
-- An operation that is dropped before it is done.
use vibeio.Prelude.{ℕ, ◌-◌, ◌<◌, ◌^◌, ◌≡◌, refl, none, some, List, arith, ◌==◌, if◌then◌else◌}
use vibeio.Slab.{Slab}
use vibeio.Uring.{HandleRegistration, Completion, UringDriver}
use vibeio.Uring.Ring.{Sqes}
use vibeio.Uring.Queue.{drain_cq, ignore_completion}
use vibeio.Uring.Completions.{ignored_completion_is_freed, get-drain_cq, IsWithout}
use vibeio.Op
use vibeio.Op.Buffer.{IoBufMut, CompletionBuffer, boxed, inline, into_inner, into_stable_box}
use vibeio.Op.Read
use vibeio.Op.Read.{ReadOp}
use vibeio.Op.Await.{IsInFlight, waiting, completed}

stable_box : {B : Type 0} (buf : CompletionBuffer B) → into_stable_box buf ≡ boxed (into_inner buf)
unfolding into_stable_box into_inner
stable_box (inline buf) = refl
stable_box (boxed buf) = refl

-- A slot whose waiter is still there, and with it the box of the buffer.
abbrev pub keeping : {B : Type 0} → (CompletionBuffer B → ℕ) → ReadOp B → ℕ → Completion
keeping box op waker = record {
  waiter = some waker;
  completed = none;
  ignored_data = some (box (boxed (into_inner op.buf)));
}

module _ {B S C R : Type 0} ⦃buffer : IoBufMut B⦄ ⦃slab : Slab S HandleRegistration⦄
    ⦃pool : Slab C Completion⦄ ⦃sqes : Sqes R⦄ where
  -- A read in flight with a token below 2 ^ 63 - 1 that is dropped leaves with the driver the box of
  -- its own buffer, made stable, whatever function `box` tells such boxes apart, and leaves every
  -- other slot as it was. The slot keeps that box through entries of the queue without its key, and
  -- the entry with its key, whatever its result is, frees the slot and no other.
  pub dropped_read_keeps_its_buffer :
      (box : CompletionBuffer B → ℕ) (d : UringDriver S C R) (op : ReadOp B)
      (token waker result j : ℕ) (cq : List (ℕ × ℕ))
      → token < 2 ^ 63 - 1
      → IsInFlight d op.completion_token token waker
      → IsWithout token cq
      → let d' = Read.drop box d op in
        (pool.get (drain_cq d'.registrations d'.completions cq).completions token
          ≡ some (keeping box op waker))
        × (pool.get d'.completions j
            ≡ (if token == j then some (keeping box op waker) else pool.get d.completions j))
        × (pool.get (completed d' token result).completions j
            ≡ (if token == j then none else pool.get d.completions j))
  unfolding Read.drop Op.drop ignore_completion into_inner
  dropped_read_keeps_its_buffer box d op token waker result j cq h (held, at) without =
      let kept = box (boxed (into_inner op.buf)) in
      let keep = λ (e : Completion). record e { ignored_data = some kept } in
      let c = d.completions in
      rw (held, stable_box op.buf)
        (
          ground (
            arith,
            pool.get-update c token keep token,
            get-drain_cq d.registrations (ignore_completion c token kept) cq token without,
          ),
          ground (arith, pool.get-update c token keep j),
          ignored_completion_is_freed d.registrations c token result kept (waiting waker) j h at,
        )
