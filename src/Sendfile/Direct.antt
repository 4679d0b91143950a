-- ===== src/Sendfile/Direct.antt =====
-- Sending by sendfile(2).
use mathlib.Core.List.{append_assoc, append-nil}
use vibeio.Prelude.{
  ℕ, zero, suc, ◌+◌, ◌-◌, ◌≤◌, ◌<◌, ◌≡◌, refl, sym, ap, ◌∙◌, ◌⊎◌, inl, inr, some, List, [], ◌++◌,
  Bool-cases, Result-cases, Result, ok, err, IoError, length, length-append, take, drop,
  take-append-drop, length-take, ltb, arith,
}
use vibeio.Sendfile.{Splices, sendfile_loop, sendfile_exact_poll, IsSent}

pub le_cases : (a b : ℕ) → (a < b) ⊎ (b ≤ a)
le_cases a b = elim (Bool-cases (ltb a b)) [
  | inl p ↦ inl (ground arith)
  | inr p ↦ inr (ground arith)
]

module _ {D : Type 0} ⦃splices : Splices D⦄ where
  sendfile_loop_done :
      (fuel : ℕ) (d : D) (len total : ℕ)
      → len ≤ total
      → sendfile_loop (suc fuel) d len total ≡ some (ok total, d)
  unfolding sendfile_loop
  sendfile_loop_done fuel d len total h = ground arith

  sendfile_loop_err :
      (fuel : ℕ) (d : D) (len total : ℕ) (e : IoError)
      → total < len
      → (splices.sendfile d (len - total)).0 ≡ err e
      → sendfile_loop (suc fuel) d len total ≡ some (err e, (splices.sendfile d (len - total)).1)
  unfolding sendfile_loop
  sendfile_loop_err fuel d len total e h p = ground arith

  sendfile_loop_end :
      (fuel : ℕ) (d : D) (len total : ℕ)
      → total < len
      → (splices.sendfile d (len - total)).0 ≡ ok 0
      → sendfile_loop (suc fuel) d len total ≡ some (ok total, (splices.sendfile d (len - total)).1)
  unfolding sendfile_loop
  sendfile_loop_end fuel d len total h p = ground arith

  sendfile_loop_more :
      (fuel : ℕ) (d : D) (len total n : ℕ)
      → total < len
      → (splices.sendfile d (len - total)).0 ≡ ok (suc n)
      → sendfile_loop (suc fuel) d len total
        ≡ sendfile_loop fuel (splices.sendfile d (len - total)).1 len (total + suc n)
  unfolding sendfile_loop
  sendfile_loop_more fuel d len total n h p = ground arith

  -- Where the loop stands: what it has sent, of the file's bytes.
  IsSending : List ℕ → List ℕ → D → ℕ → List ℕ → Type 0
  IsSending bytes taken d total sent =
      (sent ++ splices.source d ≡ bytes) × (splices.sink d ≡ taken ++ sent) × (length sent ≡ total)

  step-IsSending :
      (bytes taken : List ℕ) (d : D) (total n len : ℕ) (sent : List ℕ)
      → IsSending bytes taken d total sent
      → (splices.sendfile d len).0 ≡ ok n
      → IsSending bytes taken
          (splices.sendfile d len).1
          (total + n)
          (sent ++ take n (splices.source d))
  unfolding IsSending
  step-IsSending bytes taken d total n len sent s p =
      let moved = splices.sendfile_ok d len n p in
      let front = take n (splices.source d) in
      (
        ap (λ xs. (sent ++ front) ++ xs) moved.2
            ∙ append_assoc sent front (drop n (splices.source d))
            ∙ ap (λ xs. sent ++ xs) (take-append-drop n (splices.source d))
            ∙ s.0,
        moved.3 ∙ ap (λ xs. xs ++ front) s.1 ∙ append_assoc taken sent front,
        omega (arith, length-append sent front, length-take n (splices.source d) moved.1, s.2),
      )

  -- The end of the loop.
  end-IsSent :
      (bytes taken : List ℕ) (d : D) (total len : ℕ) (sent : List ℕ)
      → IsSending bytes taken d total sent
      → total ≤ len
      → (len ≤ total) ⊎ (splices.source d ≡ [])
      → IsSent bytes taken len (ok total, d)
  unfolding IsSending IsSent
  end-IsSent bytes taken d total len sent s most why =
      let size = length-append sent (splices.source d) in
      let whole = ap length s.0 in
      (
        sent,
        (
          splices.source d,
          s.0,
          s.1,
          omega (arith, s.2),
          λ n p.
              let same : total ≡ n = cc in
              (
                omega (arith, s.2),
                elim why [
                  | inl h ↦ inl (omega arith)
                  | inr q ↦ inr (let none_left = ap length q in omega (arith, s.2))
                ],
              ),
        ),
      )

  -- An error leaves what has been sent.
  failed-IsSent :
      (bytes taken : List ℕ) (d d' : D) (total len : ℕ) (sent : List ℕ) (e : IoError)
      → IsSending bytes taken d total sent
      → total ≤ len
      → splices.sink d' ≡ splices.sink d
      → IsSent bytes taken len (err e, d')
  unfolding IsSending IsSent
  failed-IsSent bytes taken d d' total len sent e s most same =
      (sent, (splices.source d, s.0, same ∙ s.1, omega (arith, s.2), λ n p. absurd (ground arith)))

  -- What the loop answers from where it stands.
  Sends : List ℕ → List ℕ → ℕ → D → ℕ → ℕ → Type 0
  Sends bytes taken fuel d len total =
      (out : Result ℕ × D) × (sendfile_loop fuel d len total ≡ some out)
      × IsSent bytes taken len out

  round-Sends :
      (bytes taken : List ℕ) (fuel : ℕ) (d : D) (len total n : ℕ) (sent : List ℕ)
      → IsSending bytes taken d total sent
      → total < len
      → (splices.sendfile d (len - total)).0 ≡ ok n
      → (0 < n → Sends bytes taken fuel (splices.sendfile d (len - total)).1 len (total + n))
      → Sends bytes taken (suc fuel) d len total
  unfolding Sends
  round-Sends bytes taken fuel d len total zero sent s h p ih =
      let d' = (splices.sendfile d (len - total)).1 in
      let moved = step-IsSending bytes taken d total 0 (len - total) sent s p in
      let same : total ≡ total + 0 = omega arith in
      let asked : (len - total ≡ 0) → splices.source d ≡ [] = λ q. absurd (omega arith) in
      let at_end : splices.source d ≡ [] = elim (splices.sendfile_end d (len - total) p) [
        | inl q ↦ asked q
        | inr q ↦ q
      ] in
      (
        (ok (total + 0), d'),
        sendfile_loop_end fuel d len total h p ∙ ap (λ t. some (ok t, d')) same,
        end-IsSent bytes taken d' (total + 0) len (sent ++ take 0 (splices.source d)) moved
            (omega arith) (inr ((splices.sendfile_ok d (len - total) 0 p).2 ∙ at_end)),
      )
  round-Sends bytes taken fuel d len total (suc n) sent s h p ih =
      let rest = ih (omega arith) in
      (rest.0, sendfile_loop_more fuel d len total n h p ∙ rest.1, rest.2)

  loop-Sends :
      (bytes taken : List ℕ) (fuel : ℕ) (d : D) (len total : ℕ) (sent : List ℕ)
      → IsSending bytes taken d total sent
      → total ≤ len
      → len < total + fuel
      → Sends bytes taken fuel d len total
  unfolding Sends
  loop-Sends bytes taken zero d len total sent s most enough = absurd (omega arith)
  loop-Sends bytes taken (suc fuel) d len total sent s most enough = elim (le_cases total len) [
    | inr h ↦ (
      (ok total, d),
      sendfile_loop_done fuel d len total h,
      end-IsSent bytes taken d total len sent s most (inl h),
    )
    | inl h ↦ elim (Result-cases (splices.sendfile d (len - total)).0) [
      | inl (n, p) ↦
          let fits = (splices.sendfile_ok d (len - total) n p).0 in
          round-Sends bytes taken fuel d len total n sent s h p (λ some_sent.
            loop-Sends bytes taken fuel (splices.sendfile d (len - total)).1 len (total + n)
              (sent ++ take n (splices.source d))
              (step-IsSending bytes taken d total n (len - total) sent s p) (omega arith)
              (omega arith))
      | inr (e, p) ↦
          let d' = (splices.sendfile d (len - total)).1 in
          (
            (err e, d'),
            sendfile_loop_err fuel d len total e h p,
            failed-IsSent bytes taken d d' total len sent e s most
                (splices.sendfile_err d (len - total) e p).1,
          )
    ]
  ]

  -- `sendfile_exact` by sendfile(2) always comes to an end. The socket has taken a front of the file's
  -- bytes, in order, and no more than were asked for; a success is their number, which is what was
  -- asked for or all that there are.
  pub sendfile_exact_poll-IsSent :
      (d : D) (len : ℕ)
      → (out : Result ℕ × D) × (sendfile_exact_poll d len ≡ some out)
        × IsSent (splices.source d) (splices.sink d) len out
  unfolding sendfile_exact_poll Sends IsSending
  sendfile_exact_poll-IsSent d len =
      loop-Sends (splices.source d) (splices.sink d) (suc len) d len 0 []
        (refl, sym (append-nil (splices.sink d)), refl) (omega arith) (omega arith)
