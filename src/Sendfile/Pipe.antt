-- ===== src/Sendfile/Pipe.antt =====
-- Sending through a pipe.
use mathlib.Core.List.{append-nil}
use vibeio.Prelude.{
  ℕ, zero, suc, ◌+◌, ◌-◌, ◌*◌, ◌^◌, ◌≤◌, ◌<◌, ◌≡◌, refl, sym, ap, ◌∙◌, ◌⊎◌, inl, inr, Bool, true,
  false, some, List, [], ◌++◌, Bool-cases, Result-cases, Result, ok, err, IoError, length,
  length-append, arith,
}
use vibeio.Sendfile.{
  Splices, goes_on, fill, empty, completion_loop, sendfile_exact_completion, IsSent,
}
use vibeio.Sendfile.Direct.{le_cases}
use vibeio.Sendfile.Moving.{IsMoving, failed-IsSent}
use vibeio.Sendfile.Fill.{work, Filled, fill-Filled}
use vibeio.Sendfile.Empty.{Emptied, empty-Emptied}

goes_on-cases :
    (len from to : ℕ) (eof : Bool)
    → goes_on len from to eof ≡ true
    → ((from < len) × (eof ≡ false)) ⊎ (to < from)
goes_on-cases len from to eof h = elim (le_cases to from) [
  | inl p ↦ inr p
  | inr p ↦ inl (ground arith, ground arith)
]

-- A round that goes on leaves less to be done.
less_left :
    (fuel len from from' to n : ℕ) (eof eof' : Bool)
    → work len from eof + (len - to) < suc fuel
    → from ≤ len
    → goes_on len from to eof ≡ true
    → from ≤ from'
    → work len from' eof' ≤ work len from eof
    → (from < len → eof ≡ false → work len from' eof' < work len from eof)
    → (to < from' → 0 < n)
    → work len from' eof' + (len - (to + n)) < fuel
less_left fuel len from from' to n eof eof' enough most h grows less busy some_sent =
    elim (goes_on-cases len from to eof h) [
      | inl (p, q) ↦ let strict = busy p q in omega arith
      | inr p ↦ let strict = some_sent (omega arith) in omega arith
    ]

module _ {D : Type 0} ⦃splices : Splices D⦄ where
  pub loop_done :
      (fuel : ℕ) (d : D) (len from to : ℕ) (eof : Bool)
      → goes_on len from to eof ≡ false
      → completion_loop (suc fuel) d len from to eof ≡ some (ok to, d)
  unfolding completion_loop
  loop_done fuel d len from to eof h = ground arith

  fill_failed :
      (fuel : ℕ) (d d' : D) (len from to : ℕ) (eof : Bool) (e : IoError)
      → goes_on len from to eof ≡ true
      → fill d len from eof ≡ (err e, d')
      → completion_loop (suc fuel) d len from to eof ≡ some (err e, d')
  unfolding completion_loop
  fill_failed fuel d d' len from to eof e h p = ground arith

  empty_failed :
      (fuel : ℕ) (d d' d2 : D) (len from from' to : ℕ) (eof eof' : Bool) (e : IoError)
      → goes_on len from to eof ≡ true
      → fill d len from eof ≡ (ok (from', eof'), d')
      → empty d' (from' - to) ≡ (err e, d2)
      → completion_loop (suc fuel) d len from to eof ≡ some (err e, d2)
  unfolding completion_loop
  empty_failed fuel d d' d2 len from from' to eof eof' e h p q = ground arith

  pub round_done :
      (fuel : ℕ) (d d' d2 : D) (len from from' to n : ℕ) (eof eof' : Bool)
      → goes_on len from to eof ≡ true
      → fill d len from eof ≡ (ok (from', eof'), d')
      → empty d' (from' - to) ≡ (ok (some n), d2)
      → completion_loop (suc fuel) d len from to eof
        ≡ completion_loop fuel d2 len from' (to + n) eof'
  unfolding completion_loop
  round_done fuel d d' d2 len from from' to n eof eof' h p q = ground arith

  -- The end of the loop: the pipe is empty, and all that was asked for has been sent, or all there is.
  end-IsSent :
      (bytes taken : List ℕ) (d : D) (len from to : ℕ) (eof : Bool) (sent : List ℕ)
      → IsMoving bytes taken d len from to eof sent
      → goes_on len from to eof ≡ false
      → IsSent bytes taken len (ok to, d)
  unfolding IsMoving IsSent
  end-IsSent bytes taken d len from to eof sent s h =
      let stays : from ≤ to = ground arith in
      let why : (len ≤ from) ⊎ (eof ≡ true) = elim (le_cases from len) [
        | inl p ↦ inr (ground arith)
        | inr p ↦ inl p
      ] in
      let size = length-append sent (splices.pipe d ++ splices.source d) in
      let inner = length-append (splices.pipe d) (splices.source d) in
      let whole = ap length s.0 in
      (
        sent,
        (
          splices.pipe d ++ splices.source d,
          s.0,
          s.1,
          omega (arith, s.2, s.3, s.4),
          λ n p.
              let same : to ≡ n = cc in
              (
                omega (arith, s.2),
                elim why [
                  | inl q ↦ inl (omega (arith, s.3, s.4))
                  | inr q ↦ inr (let none_left = ap length (s.5 q) in omega (arith, s.2, s.3))
                ],
              ),
        ),
      )

  -- What the loop answers from where it stands.
  Moves : List ℕ → List ℕ → ℕ → D → ℕ → ℕ → ℕ → Bool → Type 0
  Moves bytes taken fuel d len from to eof =
      (out : Result ℕ × D) × (completion_loop fuel d len from to eof ≡ some out)
      × IsSent bytes taken len out

  after_fill :
      (bytes taken : List ℕ) (fuel : ℕ) (d d' : D) (len from from' to : ℕ) (eof eof' : Bool)
      (sent : List ℕ)
      → goes_on len from to eof ≡ true
      → fill d len from eof ≡ (ok (from', eof'), d')
      → IsMoving bytes taken d' len from' to eof' sent
      → ((d2 : D) (n : ℕ) (sent' : List ℕ)
          → IsMoving bytes taken d2 len from' (to + n) eof' sent'
          → (to < from' → 0 < n)
          → Moves bytes taken fuel d2 len from' (to + n) eof')
      → Moves bytes taken (suc fuel) d len from to eof
  unfolding Moves Emptied
  after_fill bytes taken fuel d d' len from from' to eof eof' sent h p s ih =
      elim (empty-Emptied bytes taken d' len from' to eof' sent s) [
        | inl (e, (d2, q, same)) ↦ (
          (err e, d2),
          empty_failed fuel d d' d2 len from from' to eof eof' e h p q,
          failed-IsSent bytes taken d' d2 len from' to eof' sent e s same,
        )
        | inr (n, (sent', (d2, q, s', some_sent))) ↦
            let rest = ih d2 n sent' s' some_sent in
            (rest.0, round_done fuel d d' d2 len from from' to n eof eof' h p q ∙ rest.1, rest.2)
      ]

  loop-Moves :
      (bytes taken : List ℕ) (fuel : ℕ) (d : D) (len from to : ℕ) (eof : Bool) (sent : List ℕ)
      → IsMoving bytes taken d len from to eof sent
      → work len from eof + (len - to) < fuel
      → Moves bytes taken fuel d len from to eof
  unfolding Moves Filled IsMoving
  loop-Moves bytes taken zero d len from to eof sent s enough = absurd (omega arith)
  loop-Moves bytes taken (suc fuel) d len from to eof sent s enough =
      elim (Bool-cases (goes_on len from to eof)) [
        | inr h ↦ (
          (ok to, d),
          loop_done fuel d len from to eof h,
          end-IsSent bytes taken d len from to eof sent s h,
        )
        | inl h ↦ elim (fill-Filled bytes taken d len from to eof sent s) [
          | inl (e, (d', p, same)) ↦ (
            (err e, d'),
            fill_failed fuel d d' len from to eof e h p,
            failed-IsSent bytes taken d d' len from to eof sent e s same,
          )
          | inr (from', (eof', (d', p, s', grows, less, busy))) ↦
              after_fill bytes taken fuel d d' len from from' to eof eof' sent h p s'
                (λ d2 n sent' s2 some_sent.
                  loop-Moves bytes taken fuel d2 len from' (to + n) eof' sent' s2 (
                    less_left fuel len from from' to n eof eof' enough s.4 h grows less busy
                      some_sent))
        ]
      ]

  start-IsMoving :
      (d : D) (len : ℕ)
      → len < 2 ^ 32
      → (splices.pipe2 d).0 ≡ ok tt
      → IsMoving (splices.source d) (splices.sink d) (splices.pipe2 d).1 len 0 0 false []
  unfolding IsMoving
  start-IsMoving d len h p =
      let none_yet = splices.pipe2_ok d p in
      let same = splices.pipe2_keeps d in
      (
        ap (λ xs. xs ++ splices.source (splices.pipe2 d).1) none_yet ∙ same.0,
        same.1 ∙ sym (append-nil (splices.sink d)),
        refl,
        omega (arith, ap length none_yet),
        omega arith,
        λ q. absurd (ground arith),
        h,
      )

  without_pipe :
      (d : D) (len : ℕ) (e : IoError)
      → IsSent (splices.source d) (splices.sink d) len (err e, (splices.pipe2 d).1)
  unfolding IsSent
  without_pipe d len e = (
    [],
    (
      splices.source d,
      refl,
      (splices.pipe2_keeps d).1 ∙ sym (append-nil (splices.sink d)),
      omega arith,
      λ n p. absurd (ground arith),
    ),
  )

  completion_without_pipe :
      (d : D) (len : ℕ) (e : IoError)
      → (splices.pipe2 d).0 ≡ err e
      → sendfile_exact_completion d len ≡ some (err e, (splices.pipe2 d).1)
  unfolding sendfile_exact_completion
  completion_without_pipe d len e p = ground arith

  pub completion_with_pipe :
      (d : D) (len : ℕ) (u : Unit {0})
      → (splices.pipe2 d).0 ≡ ok u
      → sendfile_exact_completion d len
        ≡ completion_loop (2 * len + 2) (splices.pipe2 d).1 len 0 0 false
  unfolding sendfile_exact_completion
  completion_with_pipe d len u p = ground arith

  -- `sendfile_exact` through a pipe, of fewer bytes than 2 ^ 32, always comes to an end. The socket has taken a front of the file's
  -- bytes, in order, and no more than were asked for; a success is their number, which is what was
  -- asked for or all that there are.
  pub sendfile_exact_completion-IsSent :
      (d : D) (len : ℕ)
      → len < 2 ^ 32
      → (out : Result ℕ × D) × (sendfile_exact_completion d len ≡ some out)
        × IsSent (splices.source d) (splices.sink d) len out
  unfolding Moves
  sendfile_exact_completion-IsSent d len h = elim (Result-cases (splices.pipe2 d).0) [
    | inr (e, p) ↦
        ((err e, (splices.pipe2 d).1), completion_without_pipe d len e p, without_pipe d len e)
    | inl (u, p) ↦
        let moves =
          loop-Moves (splices.source d) (splices.sink d) (2 * len + 2) (splices.pipe2 d).1 len 0 0
            false [] (start-IsMoving d len h p) (omega arith) in
        (moves.0, completion_with_pipe d len u p ∙ moves.1, moves.2)
  ]
