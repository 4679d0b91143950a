-- ===== src/Ready/Empty.antt =====
-- When no task waits in any of the queues of vibeio/src/task.rs, as the loop of
-- vibeio/src/executor.rs finds out: by an empty batch and by its tests before it sleeps.
use vibeio.Prelude.{
  ℕ, zero, suc, ◌≡◌, ◌∙◌, ◌↔◌, refl, sym, ap, true, false, not, ◌||◌, if◌then◌else◌, List, [], ◌∷◌,
  ◌++◌, take, drop, take-append-drop,
}
use vibeio.Ready.{Queues, drain_ready, is_nil, should_skip_wait}
use vibeio.Ready.Batch.{all_ready, drain_ready_takes}

abbrev pub IsEmpty : Queues → Type 0
IsEmpty q = (q.next_task ≡ []) × (q.remote_queue ≡ []) × (q.queue ≡ [])

is_nil_lem : (xs : List ℕ) → is_nil xs ≡ true → xs ≡ []
is_nil_lem [] p = refl
is_nil_lem (x ∷ xs) p = cc

are_nil : (xs ys zs : List ℕ) → xs ++ (ys ++ zs) ≡ [] → (xs ≡ []) × (ys ≡ []) × (zs ≡ [])
are_nil [] [] [] p = (refl, refl, refl)
are_nil [] [] (z ∷ zs) p = cc
are_nil [] (y ∷ ys) zs p = cc
are_nil (x ∷ xs) ys zs p = cc

none_nil :
    (xs ys zs : List ℕ)
    → (if not (is_nil xs) || not (is_nil ys) then true else not (is_nil zs)) ≡ false
    → (xs ≡ []) × (ys ≡ []) × (zs ≡ [])
none_nil [] [] [] p = (refl, refl, refl)
none_nil [] [] (z ∷ zs) p = cc
none_nil [] (y ∷ ys) zs p = cc
none_nil (x ∷ xs) ys zs p = cc

pub should_skip_wait-IsEmpty : (q : Queues) → (should_skip_wait q ≡ false) ↔ IsEmpty q
unfolding should_skip_wait
should_skip_wait-IsEmpty q =
    (none_nil q.next_task q.remote_queue q.queue, λ h. rw (h.0, h.1, h.2) refl)

take_nil : (n : ℕ) → take {A = ℕ} n [] ≡ []
take_nil zero = refl
take_nil (suc n) = refl

drop_nil : (n : ℕ) → drop {A = ℕ} n [] ≡ []
drop_nil zero = refl
drop_nil (suc n) = refl

all_nil : (q : Queues) → IsEmpty q → all_ready q ≡ []
all_nil q (a, b, c) = rw (a, b, c) refl

nothing_taken : (batch rest all : List ℕ) → batch ≡ [] → rest ≡ [] → batch ++ rest ≡ all → all ≡ []
nothing_taken batch rest all p q r = sym r ∙ (rw (p, q) refl)

-- An empty batch and the tests of the loop together find out whether a task waits, whatever the size
-- of the batch is.
pub drain_ready-IsEmpty :
    (q : Queues) (budget : ℕ)
    → ((is_nil (drain_ready q budget).0 ≡ true)
        × (should_skip_wait (drain_ready q budget).1 ≡ false))
      ↔ IsEmpty q
drain_ready-IsEmpty q budget =
    let (batch, left) = drain_ready_takes q budget in
    (
      λ (p, r). are_nil q.next_task q.remote_queue q.queue (
          nothing_taken (take budget (all_ready q)) (drop budget (all_ready q)) (all_ready q)
            (sym batch ∙ is_nil_lem _ p)
            (sym left
              ∙ all_nil (drain_ready q budget).1
                  ((should_skip_wait-IsEmpty (drain_ready q budget).1).0 r))
            (take-append-drop budget (all_ready q))),
      λ h. (
        ap is_nil (batch ∙ (ap (take budget) (all_nil q h) ∙ take_nil budget)),
        (should_skip_wait-IsEmpty (drain_ready q budget).1).1
            (are_nil _ _ _ (left ∙ (ap (drop budget) (all_nil q h) ∙ drop_nil budget))),
      ),
    )
