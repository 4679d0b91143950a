-- ===== src/Calls/Table.antt =====
-- An implementation of `Calls`, which shows that its laws can hold: a list of the open descriptors, and
-- what the calls that make no descriptor answer.
use vibeio.Prelude.{
  ℕ, suc, ◌+◌, ◌≤◌, ◌≡◌, refl, true, false, List, [], ◌∷◌, Result, ok, err, IoError, arith, has,
  ◌==◌, ◌||◌, if◌then◌else◌,
}
use vibeio.Handle
use vibeio.Handle.{InnerRawHandle}
use vibeio.Address.{Storage}
use vibeio.Calls.{Calls, Waited}

pub record Table : Type 0 where
  pub fds : List ℕ
  pub answer : Result ℕ
  pub peer : Result Storage
  pub child : Waited

abbrev pub sum : List ℕ → ℕ
sum [] = 0
sum (x ∷ xs) = x + sum xs

has-le-sum : (x : ℕ) (xs : List ℕ) → has x xs ≡ true → x ≤ sum xs
unfolding has
has-le-sum x [] h = absurd (ground arith)
has-le-sum x (y ∷ ys) h = ground (arith, has-le-sum x ys)

abbrev pub fresh : Table → ℕ
fresh t = suc (sum t.fds)

fresh_is_closed : (t : Table) → has (fresh t) t.fds ≡ false
fresh_is_closed t = ground (arith, has-le-sum (fresh t) t.fds)

abbrev pub without : ℕ → List ℕ → List ℕ
without fd [] = []
without fd (x ∷ xs) = if x == fd then without fd xs else x ∷ without fd xs

pub has-without :
    (fd j : ℕ) (xs : List ℕ) → has j (without fd xs) ≡ (if fd == j then false else has j xs)
unfolding has
has-without fd j [] = ground arith
has-without fd j (x ∷ xs) = ground (arith, has-without fd j xs)

abbrev pub open_one : Table → Result ℕ × Table
open_one t = (ok (fresh t), record t { fds = fresh t ∷ t.fds })

pub open_one_ok :
    (t : Table) (fd j : ℕ)
    → (open_one t).0 ≡ ok fd
    → (has fd t.fds ≡ false) × (has j (open_one t).1.fds ≡ (fd == j || has j t.fds))
unfolding has
open_one_ok t fd j p =
    let same : fresh t ≡ fd = ground arith in
    (ground (arith, fresh_is_closed t, same), ground (arith, same))

pub open_one_err :
    (t : Table) (j : ℕ) (e : IoError)
    → (open_one t).0 ≡ err e
    → has j (open_one t).1.fds ≡ has j t.fds
open_one_err t j e p = absurd (ground arith)

abbrev handle_of : ℕ → InnerRawHandle
handle_of fd = record { handle = fd; token = 0; interest = 1; mode = Handle.poll }

instance abbrev pub table : Calls Table
table = record {
  opened = λ t fd. has fd t.fds;
  close = λ t fd. record t { fds = without fd t.fds };
  pidfd_open = λ t pid. open_one t;
  accept = λ t listener. open_one t;
  set_cloexec = λ t fd. (ok tt, t);
  getpeername = λ t fd. (t.peer, t);
  read = λ t fd. (t.answer, t);
  waitpid = λ t pid. (t.child, t);
  new_handle = λ t fd. (ok (handle_of fd), t);
  drop_handle = λ t handle. t;
  submit_poll = λ t token waker writable. (ok tt, t);
  opened-close = λ t fd j. has-without fd j t.fds;
  pidfd_open_ok = λ t pid fd j p. open_one_ok t fd j p;
  pidfd_open_err = λ t pid j e p. open_one_err t j e p;
  accept_ok = λ t listener fd j p. open_one_ok t fd j p;
  accept_err = λ t listener j e p. open_one_err t j e p;
  opened-set_cloexec = λ t fd j. refl;
  opened-getpeername = λ t fd j. refl;
  opened-read = λ t fd j. refl;
  opened-waitpid = λ t pid j. refl;
  opened-new_handle = λ t fd j. refl;
  opened-drop_handle = λ t handle j. refl;
  opened-submit_poll = λ t token waker writable j. refl;
}
