-- ===== src/Uring/Queue.antt =====
-- The completion queue of `UringDriver`, and what the operations read from the slab of completions.
use vibeio.Prelude.{
  ℕ, Bool, true, false, Option, none, some, List, [], ◌∷◌, ◌++◌, ◌||◌, ◌==◌, if◌then◌else◌,
}
use vibeio.Slab.{Slab}
use vibeio.Uring.{
  HandleRegistration, completion, poll, Completion, interrupt_key, timeout_key, poll_key_kind,
  decode_token, decode_key_kind, take_poll, take_poll_at, update_waiter,
}
use vibeio.Uring.Calls.{woken, complete, is_some}

-- The two slabs, the wakers of a burst, and whether the interruptor's read has come back.
pub record Drained (S C : Type 0) : Type 0 where
  pub registrations : S
  pub completions : C
  pub wakers : List ℕ
  pub interrupt : Bool

-- The waker that a completed poll takes out of its registration.
abbrev pub poll_waker : Option HandleRegistration → Option ℕ
poll_waker none = none
poll_waker (some completion) = none
poll_waker (some (poll r)) = (take_poll r).0

module _ {S C : Type 0} ⦃slab : Slab S HandleRegistration⦄ ⦃pool : Slab C Completion⦄ where
  -- An entry of the kind of the completions.
  unfoldable pub drain_completion : S → C → ℕ → ℕ → Drained S C
  drain_completion s c token result = elim (pool.get c token) [
    | none ↦ record { registrations = s; completions = c; wakers = []; interrupt = false }
    | some entry ↦ record {
      registrations = s;
      completions =
          if is_some entry.ignored_data
          then pool.remove (pool.update c token (complete result)) token
          else pool.update c token (complete result);
      wakers = woken entry.waiter;
      interrupt = false;
    }
  ]

  -- One entry of the queue: its key and its result.
  unfoldable pub drain_cqe : S → C → ℕ → ℕ → Drained S C
  unfolding drain_completion decode_token decode_key_kind
  drain_cqe s c key result =
      if key == interrupt_key
      then record { registrations = s; completions = c; wakers = []; interrupt = true }
      else if key == timeout_key
      then record { registrations = s; completions = c; wakers = []; interrupt = false }
      else if decode_key_kind key == poll_key_kind
      then record {
        registrations = slab.update s (decode_token key) take_poll_at;
        completions = c;
        wakers = woken (poll_waker (slab.get s (decode_token key)));
        interrupt = false;
      }
      else drain_completion s c (decode_token key) result

  unfoldable pub drain_cq : S → C → List (ℕ × ℕ) → Drained S C
  unfolding drain_cqe
  drain_cq s c [] = record { registrations = s; completions = c; wakers = []; interrupt = false }
  drain_cq s c ((key, result) ∷ cq) =
      let first = drain_cqe s c key result in
      let rest = drain_cq first.registrations first.completions cq in
      record rest {
        wakers = first.wakers ++ rest.wakers;
        interrupt = first.interrupt || rest.interrupt;
      }

module _ {C : Type 0} ⦃pool : Slab C Completion⦄ where
  abbrev pub completed_at : C → ℕ → Option ℕ
  completed_at c token = elim (pool.get c token) [ none ↦ none | some entry ↦ entry.completed ]

  -- The result of a completed operation, which gives its slot back.
  unfoldable pub get_completion_result : C → ℕ → Option ℕ × C
  get_completion_result c token =
      let completed = completed_at c token in
      (completed, if is_some completed then pool.remove c token else c)

  unfoldable pub set_completion_waker : C → ℕ → ℕ → C
  unfolding update_waiter
  set_completion_waker c token waker =
      pool.update c token (λ entry. record entry { waiter = update_waiter entry.waiter waker })

  unfoldable pub ignore_completion : C → ℕ → ℕ → C
  ignore_completion c token kept =
      pool.update c token (λ entry. record entry { ignored_data = some kept })
