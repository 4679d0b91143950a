-- ===== src/Sendfile/Empty.antt =====
-- The second half of a round of sending through the pipe.
use vibeio.Prelude.{
  ℕ, zero, suc, ◌+◌, ◌-◌, ◌<◌, ◌≡◌, ◌≢◌, ap, ◌⊎◌, inl, inr, Bool, some, List, ◌++◌, Result-cases,
  ok, err, IoError, length, take, arith,
}
use vibeio.Sendfile.{Splices, empty, splice_len, splice_len_short}
use vibeio.Sendfile.Direct.{le_cases}
use vibeio.Sendfile.Moving.{IsMoving, empty-IsMoving}

module _ {D : Type 0} ⦃splices : Splices D⦄ where
  -- The second half of a round: an error, or the socket with more of the bytes, where the pipe has any.
  -- The loop is not left here.
  unfoldable pub Emptied : List ℕ → List ℕ → D → ℕ → ℕ → ℕ → Bool → List ℕ → Type 0
  Emptied bytes taken d len from to eof sent =
      ((e : IoError) × ((d' : D) × (empty d (from - to) ≡ (err e, d'))
          × (splices.sink d' ≡ splices.sink d)))
      ⊎ ((n : ℕ) × ((sent' : List ℕ) × ((d' : D) × (empty d (from - to) ≡ (ok (some n), d'))
              × IsMoving bytes taken d' len from (to + n) eof sent'
              × (to < from → 0 < n))))

  pub empty_idle : (d : D) (ask : ℕ) → ask ≡ 0 → empty d ask ≡ (ok (some 0), d)
  unfolding empty
  empty_idle d ask h = ground arith

  empty_err :
      (d : D) (ask : ℕ) (e : IoError)
      → 0 < ask
      → (splices.splice_out d (splice_len ask)).0 ≡ err e
      → empty d ask ≡ (err e, (splices.splice_out d (splice_len ask)).1)
  unfolding empty
  empty_err d ask e h p = ground arith

  empty_more :
      (d : D) (ask n : ℕ)
      → 0 < ask
      → (splices.splice_out d (splice_len ask)).0 ≡ ok (suc n)
      → empty d ask ≡ (ok (some (suc n)), (splices.splice_out d (splice_len ask)).1)
  unfolding empty
  empty_more d ask n h p = ground arith

  -- The pipe is not empty where something is asked for.
  nothing_moved :
      (bytes taken : List ℕ) (d : D) (len from to : ℕ) (eof : Bool) (sent : List ℕ)
      → IsMoving bytes taken d len from to eof sent
      → to < from
      → (splices.splice_out d (splice_len (from - to))).0 ≢ ok 0
  unfolding IsMoving
  nothing_moved bytes taken d len from to eof sent s h p =
      elim (splices.splice_out_end d (splice_len (from - to)) p) [
        | inl q ↦
            let whole = splice_len_short (from - to) (omega (arith, s.4, s.6)) in
            absurd (omega (arith, whole))
        | inr q ↦ let none_left = ap length q in absurd (omega (arith, s.3))
      ]

  got-Emptied :
      (bytes taken : List ℕ) (d : D) (len from to n : ℕ) (eof : Bool) (sent : List ℕ)
      → IsMoving bytes taken d len from to eof sent
      → to < from
      → (splices.splice_out d (splice_len (from - to))).0 ≡ ok n
      → Emptied bytes taken d len from to eof sent
  unfolding Emptied
  got-Emptied bytes taken d len from to zero eof sent s h p =
      absurd (nothing_moved bytes taken d len from to eof sent s h p)
  got-Emptied bytes taken d len from to (suc n) eof sent s h p = inr (
    suc n,
    (
      sent ++ take (suc n) (splices.pipe d),
      (
        (splices.splice_out d (splice_len (from - to))).1,
        empty_more d (from - to) n (omega arith) p,
        empty-IsMoving bytes taken d len from to (suc n) (splice_len (from - to)) eof sent s p,
        λ h'. omega arith,
      ),
    ),
  )

  pub empty-Emptied :
      (bytes taken : List ℕ) (d : D) (len from to : ℕ) (eof : Bool) (sent : List ℕ)
      → IsMoving bytes taken d len from to eof sent
      → Emptied bytes taken d len from to eof sent
  unfolding Emptied
  empty-Emptied bytes taken d len from to eof sent s = elim (le_cases to from) [
    | inr h ↦
        let same : to + 0 ≡ to = omega arith in
        inr (
          0,
          (
            sent,
            (d, empty_idle d (from - to) (omega arith), rw same s, λ h'. absurd (omega arith)),
          ),
        )
    | inl h ↦ elim (Result-cases (splices.splice_out d (splice_len (from - to))).0) [
      | inl (n, p) ↦ got-Emptied bytes taken d len from to n eof sent s h p
      | inr (e, p) ↦ inl (
        e,
        (
          (splices.splice_out d (splice_len (from - to))).1,
          empty_err d (from - to) e (omega arith) p,
          (splices.splice_out_err d (splice_len (from - to)) e p).2,
        ),
      )
    ]
  ]
