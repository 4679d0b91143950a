-- ===== src/Executor/Batches.antt =====
-- The polls of a batch.
use mathlib.Core.List.{append_assoc, append-nil}
use vibeio.Prelude.{
  ℕ, ◌≡◌, refl, sym, true, false, Option, none, some, inl, inr, List, [], ◌∷◌, ◌++◌, arith,
  Option-cases, has, has-cons,
}
use vibeio.Executor.{World, Actions, poll_one, poll_batch, set_future}

-- Whether no task stands in the list twice.
unfoldable pub IsDistinct : List ℕ → Type 0
IsDistinct [] = Unit {0}
IsDistinct (task ∷ tasks) = (has task tasks ≡ false) × IsDistinct tasks

-- The tasks that still have a future.
unfoldable pub live : {F : Type 0} → (ℕ → Option F) → List ℕ → List ℕ
live futures [] = []
live futures (task ∷ tasks) = elim (futures task) [
  | none ↦ live futures tasks
  | some _ ↦ task ∷ live futures tasks
]

live-agree :
    {F : Type 0} (f g : ℕ → Option F) (tasks : List ℕ)
    → ((t : ℕ) → has t tasks ≡ true → f t ≡ g t)
    → live f tasks ≡ live g tasks
unfolding live has
live-agree f g [] h = refl
live-agree f g (task ∷ tasks) h =
    ground (arith, h task, live-agree f g tasks (λ t p. h t (ground arith)))

module _ {F G E T : Type 0} (actions : Actions F G E T) (log : E → List ℕ) where
  -- A poll of a future is written down in the log, and leaves the slots of the other tasks of the
  -- list alone. It may fill the slots of new tasks.
  abbrev pub IsLogged : List ℕ → Type 0
  IsLogged tasks =
      (task : ℕ) (future : F) (w : World F G E)
      → (log (actions.poll_future task future w).2.rest ≡ log w.rest ++ task ∷ [])
        × ((t : ℕ)
            → has t tasks ≡ true
            → (actions.poll_future task future w).2.futures t ≡ w.futures t)

  poll_one_lem :
      (tasks : List ℕ) (w : World F G E) (task t : ℕ)
      → IsLogged tasks
      → has t tasks ≡ true
      → has task tasks ≡ false
      → (poll_one actions w task).futures t ≡ w.futures t
  unfolding poll_one
  poll_one_lem tasks w task t h p q = elim (Option-cases (w.futures task)) [
    | inl e ↦ ground arith
    | inr (future, e) ↦
        let taken : World F G E = record w { futures = set_future w.futures task none } in
        ground (arith, (h task future taken).1 t p)
  ]

  rest-poll_one :
      (tasks : List ℕ) (w : World F G E) (task : ℕ) (future : F)
      → IsLogged tasks
      → w.futures task ≡ some future
      → log (poll_one actions w task).rest ≡ log w.rest ++ task ∷ []
  unfolding poll_one
  rest-poll_one tasks w task future h e =
      let taken : World F G E = record w { futures = set_future w.futures task none } in
      ground (arith, (h task future taken).0)

  -- Every task of the batch that has a future is polled once, in the order of the batch, and no other
  -- is, where no task stands in the batch twice and a poll leaves the slots of the other tasks of the
  -- batch alone.
  pub batch_polls_each_once :
      (w : World F G E) (tasks : List ℕ)
      → IsLogged tasks
      → IsDistinct tasks
      → log (poll_batch actions w tasks).rest ≡ log w.rest ++ live w.futures tasks
  unfolding poll_batch live IsDistinct
  batch_polls_each_once w [] h d = sym (append-nil (log w.rest))
  batch_polls_each_once w (task ∷ tasks) h d =
      let next = poll_one actions w task in
      let h' : IsLogged tasks =
        λ t f v. ((h t f v).0, λ k p. (h t f v).1 k (ground (arith, has-cons k task tasks))) in
      let rest = batch_polls_each_once next tasks h' d.1 in
      let same : live next.futures tasks ≡ live w.futures tasks =
        live-agree next.futures w.futures tasks (λ t p. poll_one_lem tasks w task t h' p d.0) in
      elim (Option-cases (w.futures task)) [
        | inl e ↦ ground (arith, rest, same)
        | inr (future, e) ↦ ground (
          arith,
          rest,
          same,
          rest-poll_one tasks w task future h' e,
          append_assoc (log w.rest) (task ∷ []) (live w.futures tasks),
        )
      ]
