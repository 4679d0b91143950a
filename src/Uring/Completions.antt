-- ===== src/Uring/Completions.antt =====
-- The life of an operation's slot: from its submission to its result, or to its end when the operation
-- has been dropped.
use vibeio.Prelude.{
  ℕ, ◌-◌, ◌<◌, ◌^◌, ◌≡◌, ◌≢◌, refl, none, some, ◌⊎◌, inl, inr, List, [], ◌∷◌, Result, arith, ◌==◌,
  if◌then◌else◌,
}
use vibeio.Slab.{Slab}
use vibeio.Uring.Ring.{Sqes, Sqe}
use vibeio.Uring.{
  HandleRegistration, Completion, UringDriver, encode_completion_key, decode_token, decode_key_kind,
  poll_key_kind,
}
use vibeio.Uring.Keys.{decode-encode}
use vibeio.Uring.Calls.{submit_completion, retry, complete, woken}
use vibeio.Uring.Queue.{
  drain_cqe, drain_cq, drain_completion, get_completion_result, ignore_completion,
}

-- Whether no entry of the queue carries the key of the token's completion.
unfoldable pub IsWithout : ℕ → List (ℕ × ℕ) → Type 0
IsWithout token [] = Unit {0}
IsWithout token ((key, result) ∷ cq) =
    ((decode_token key ≢ token) ⊎ (decode_key_kind key ≡ poll_key_kind)) × IsWithout token cq

module _ {C : Type 0} ⦃pool : Slab C Completion⦄ where
  pub get-get_completion_result :
      (c : C) (token j : ℕ) (entry : Completion) (result : ℕ)
      → pool.get c token ≡ some entry
      → entry.completed ≡ some result
      → ((get_completion_result c token).0 ≡ some result)
        × (pool.get (get_completion_result c token).1 j
            ≡ (if token == j then none else pool.get c j))
  unfolding get_completion_result
  get-get_completion_result c token j entry result at done =
      (ground arith, ground (arith, pool.get-remove c token j))

module _ {S C : Type 0} ⦃slab : Slab S HandleRegistration⦄ ⦃pool : Slab C Completion⦄ where
  -- An entry of the queue that carries the key of a token's completion.
  pub drain-key :
      (s : S) (c : C) (token result : ℕ)
      → token < 2 ^ 63 - 1
      → drain_cqe s c (encode_completion_key token) result ≡ drain_completion s c token result
  unfolding drain_cqe
  drain-key s c token result h = ground (arith, decode-encode token h)

  pub get-drain_completion :
      (s : S) (c : C) (token result j : ℕ) (entry : Completion)
      → pool.get c token ≡ some entry
      → entry.ignored_data ≡ none
      → pool.get (drain_completion s c token result).completions j
        ≡ (if token == j then some (complete result entry) else pool.get c j)
  unfolding drain_completion
  get-drain_completion s c token result j entry at kept =
      ground (arith, pool.get-update c token (complete result) j)

  pub wakers-drain_completion :
      (s : S) (c : C) (token result : ℕ) (entry : Completion)
      → pool.get c token ≡ some entry
      → (drain_completion s c token result).wakers ≡ woken entry.waiter
  unfolding drain_completion
  wakers-drain_completion s c token result entry at = ground arith

  -- The slot of an operation that is ignored is given back by its completion, for a token below 2 ^
  -- 63 - 1, together with the box it left, and no other slot is touched.
  pub ignored_completion_is_freed :
      (s : S) (c : C) (token result kept : ℕ) (entry : Completion) (j : ℕ)
      → token < 2 ^ 63 - 1
      → pool.get c token ≡ some entry
      → let after =
          drain_cqe s (ignore_completion c token kept) (encode_completion_key token) result in
        pool.get after.completions j ≡ (if token == j then none else pool.get c j)
  unfolding drain_completion ignore_completion
  ignored_completion_is_freed s c token result kept entry j h at =
      let c' = ignore_completion c token kept in
      ground (
        arith,
        drain-key s c' token result h,
        pool.get-update c token (λ e. record e { ignored_data = some kept }) token,
        pool.get-update c token (λ e. record e { ignored_data = some kept }) j,
        pool.get-update c' token (complete result) j,
        pool.get-remove (pool.update c' token (complete result)) token j,
      )

  get-drain_cqe :
      (s : S) (c : C) (key result token : ℕ)
      → (decode_token key ≢ token) ⊎ (decode_key_kind key ≡ poll_key_kind)
      → pool.get (drain_cqe s c key result).completions token ≡ pool.get c token
  unfolding drain_cqe drain_completion
  get-drain_cqe s c key result token (inl h) = ground (
    arith,
    pool.get-update c (decode_token key) (complete result) token,
    pool.get-remove (pool.update c (decode_token key) (complete result)) (decode_token key) token,
  )
  get-drain_cqe s c key result token (inr h) = ground arith

  pub get-drain_cq :
      (s : S) (c : C) (cq : List (ℕ × ℕ)) (token : ℕ)
      → IsWithout token cq
      → pool.get (drain_cq s c cq).completions token ≡ pool.get c token
  unfolding drain_cq IsWithout
  get-drain_cq s c [] token h = refl
  get-drain_cq s c ((key, result) ∷ cq) token h = ground (
    arith,
    get-drain_cqe s c key result token h.0,
    get-drain_cq (drain_cqe s c key result).registrations (drain_cqe s c key result).completions cq
        token h.1,
  )

  -- When an operation with a token below 2 ^ 63 - 1 is ignored after its completion has come, its
  -- slot stays taken and holds the box, whatever entries without its key the queue brings later.
  pub ignored_after_completion_stays :
      (s : S) (c : C) (token result kept : ℕ) (entry : Completion) (cq : List (ℕ × ℕ))
      → token < 2 ^ 63 - 1
      → pool.get c token ≡ some entry
      → entry.ignored_data ≡ none
      → IsWithout token cq
      → let completed = drain_cqe s c (encode_completion_key token) result in
        let ignored = ignore_completion completed.completions token kept in
        pool.get (drain_cq completed.registrations ignored cq).completions token
        ≡ some (record { waiter = none; completed = some result; ignored_data = some kept })
  unfolding ignore_completion
  ignored_after_completion_stays s c token result kept entry cq h at fresh without =
      let completed = drain_cqe s c (encode_completion_key token) result in
      let keep = λ (e : Completion). record e { ignored_data = some kept } in
      ground (
        arith,
        drain-key s c token result h,
        get-drain_completion s c token result token entry at fresh,
        pool.get-update completed.completions token keep token,
        get-drain_cq completed.registrations (ignore_completion completed.completions token kept) cq
            token without,
      )

module _ {S C R : Type 0} ⦃slab : Slab S HandleRegistration⦄ ⦃pool : Slab C Completion⦄
    ⦃sqes : Sqes R⦄ where
  pub get-submit_completion :
      (d : UringDriver S C R) (build : ℕ → Result Sqe) (waker token j : ℕ)
      → (submit_completion d build waker).0 ≡ retry token
      → pool.get (submit_completion d build waker).1.completions j ≡ (
          if token == j
          then some (record { waiter = some waker; completed = none; ignored_data = none })
          else pool.get d.completions j)
  unfolding submit_completion
  get-submit_completion d build waker token j p = ground (
    arith,
    pool.get-insert d.completions
        (record { waiter = some waker; completed = none; ignored_data = none }) j,
  )

  -- An operation that was submitted with a token below 2 ^ 63 - 1 is woken by its completion,
  -- through the waker it came with; then it reads the result once, its slot is vacant again, and
  -- every other slot is as it was.
  pub completion_comes_back :
      (d : UringDriver S C R) (build : ℕ → Result Sqe) (waker token result j : ℕ)
      → (submit_completion d build waker).0 ≡ retry token
      → token < 2 ^ 63 - 1
      → let d' = (submit_completion d build waker).1 in
        let after =
          drain_cqe d'.registrations d'.completions (encode_completion_key token) result in
        (after.wakers ≡ waker ∷ [])
        × ((get_completion_result after.completions token).0 ≡ some result)
        × (pool.get (get_completion_result after.completions token).1 j
            ≡ (if token == j then none else pool.get d.completions j))
  completion_comes_back d build waker token result j p h =
      let d' = (submit_completion d build waker).1 in
      let fresh : Completion = record {
        waiter = some waker;
        completed = none;
        ignored_data = none;
      } in
      let c = d'.completions in
      let at : pool.get c token ≡ some fresh =
        ground (arith, get-submit_completion d build waker token token p) in
      let after = drain_cqe d'.registrations c (encode_completion_key token) result in
      let held : pool.get after.completions token ≡ some (complete result fresh) = ground (
        arith,
        drain-key d'.registrations c token result h,
        get-drain_completion d'.registrations c token result token fresh at refl,
      ) in
      (
        ground (
          arith,
          drain-key d'.registrations c token result h,
          wakers-drain_completion d'.registrations c token result fresh at,
        ),
        (get-get_completion_result after.completions token token (complete result fresh) result held
            refl).0,
        ground (
          arith,
          drain-key d'.registrations c token result h,
          get-drain_completion d'.registrations c token result j fresh at refl,
          get-get_completion_result after.completions token j (complete result fresh) result held
              refl,
          get-submit_completion d build waker token j p,
        ),
      )
