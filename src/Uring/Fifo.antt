-- ===== src/Uring/Fifo.antt =====
-- An implementation of `Sqes`, which shows that its laws can hold: a queue of two entries, which
-- `submit` empties.
use vibeio.Prelude.{
  ◌≡◌, Bool, true, false, List, [], ◌∷◌, ◌++◌, ok, length, ltb, not, arith, if◌then◌else◌,
}
use vibeio.Uring.Ring.{Sqes, Sqe}

abbrev pub is_full : List Sqe → Bool
is_full sqes = not (ltb (length sqes) 2)

abbrev pub push : List Sqe → Sqe → Bool × List Sqe
push sqes sqe = if is_full sqes then (false, sqes) else (true, sqes ++ sqe ∷ [])

pub push_taken :
    (sqes : List Sqe) (sqe : Sqe) → (push sqes sqe).0 ≡ true → (push sqes sqe).1 ≡ sqes ++ sqe ∷ []
push_taken sqes sqe h = ground arith

pub push_refused : (sqes : List Sqe) (sqe : Sqe) → (push sqes sqe).0 ≡ false → is_full sqes ≡ true
push_refused sqes sqe h = ground arith

instance abbrev pub fifo : Sqes (List Sqe)
fifo = record {
  queued = λ sqes. sqes;
  is_full = is_full;
  submit = λ sqes. (ok (length sqes), []);
  push = push;
  push_taken = push_taken;
  push_refused = push_refused;
}
