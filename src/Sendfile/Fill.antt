-- ===== src/Sendfile/Fill.antt =====
-- The first half of a round of sending through the pipe.
use vibeio.Prelude.{
  ℕ, zero, suc, ◌+◌, ◌-◌, ◌≤◌, ◌<◌, ◌≡◌, refl, ap, ◌∙◌, ◌⊎◌, inl, inr, Bool, true, false, List, [],
  Result-cases, ok, err, IoError, arith, if◌then◌else◌,
}
use vibeio.Sendfile.{Splices, fill, splice_len, splice_len_le, splice_len_short}
use vibeio.Sendfile.Direct.{le_cases}
use vibeio.Sendfile.Moving.{IsMoving, fill-IsMoving}

-- What is left to be put into the pipe, and one more until the end of the file has been found.
abbrev pub work : ℕ → ℕ → Bool → ℕ
work len from eof = (len - from) + (if eof then 0 else 1)

module _ {D : Type 0} ⦃splices : Splices D⦄ where
  -- The first half of a round: an error, or the pipe with more in it or the end of the file found,
  -- where there is anything to be done.
  unfoldable pub Filled : List ℕ → List ℕ → D → ℕ → ℕ → ℕ → Bool → List ℕ → Type 0
  Filled bytes taken d len from to eof sent =
      ((e : IoError) × ((d' : D) × (fill d len from eof ≡ (err e, d'))
          × (splices.sink d' ≡ splices.sink d)))
      ⊎ ((from' : ℕ) × ((eof' : Bool) × ((d' : D) × (fill d len from eof ≡ (ok (from', eof'), d'))
              × IsMoving bytes taken d' len from' to eof' sent
              × (from ≤ from')
              × (work len from' eof' ≤ work len from eof)
              × (from < len → eof ≡ false → work len from' eof' < work len from eof))))

  fill_idle :
      (d : D) (len from : ℕ) (eof : Bool)
      → (eof ≡ true) ⊎ (len ≤ from)
      → fill d len from eof ≡ (ok (from, eof), d)
  unfolding fill
  fill_idle d len from eof (inl p) = ground arith
  fill_idle d len from eof (inr p) = ground arith

  fill_err :
      (d : D) (len from : ℕ) (e : IoError)
      → from < len
      → (splices.splice_in d (splice_len (len - from))).0 ≡ err e
      → fill d len from false ≡ (err e, (splices.splice_in d (splice_len (len - from))).1)
  unfolding fill
  fill_err d len from e h p = ground arith

  pub fill_end :
      (d : D) (len from : ℕ)
      → from < len
      → (splices.splice_in d (splice_len (len - from))).0 ≡ ok 0
      → fill d len from false ≡ (ok (from, true), (splices.splice_in d (splice_len (len - from))).1)
  unfolding fill
  fill_end d len from h p = ground arith

  fill_more :
      (d : D) (len from n : ℕ)
      → from < len
      → (splices.splice_in d (splice_len (len - from))).0 ≡ ok (suc n)
      → fill d len from false
        ≡ (ok (from + suc n, false), (splices.splice_in d (splice_len (len - from))).1)
  unfolding fill
  fill_more d len from n h p = ground arith

  idle-Filled :
      (bytes taken : List ℕ) (d : D) (len from to : ℕ) (eof : Bool) (sent : List ℕ)
      → IsMoving bytes taken d len from to eof sent
      → (eof ≡ true) ⊎ (len ≤ from)
      → Filled bytes taken d len from to eof sent
  unfolding Filled
  idle-Filled bytes taken d len from to eof sent s why =
      let busy : from < len → eof ≡ false → work len from eof < work len from eof =
        λ h q. elim why [ inl p ↦ absurd (ground arith) | inr p ↦ absurd (omega arith) ] in
      inr (from, (eof, (d, fill_idle d len from eof why, s, omega arith, omega arith, busy)))

  got-Filled :
      (bytes taken : List ℕ) (d : D) (len from to n : ℕ) (sent : List ℕ)
      → IsMoving bytes taken d len from to false sent
      → from < len
      → (splices.splice_in d (splice_len (len - from))).0 ≡ ok n
      → Filled bytes taken d len from to false sent
  unfolding Filled IsMoving
  got-Filled bytes taken d len from to zero sent s h p =
      let d' = (splices.splice_in d (splice_len (len - from))).1 in
      let same : from ≡ from + 0 = omega arith in
      let asked : (splice_len (len - from) ≡ 0) → splices.source d ≡ [] =
        λ q. absurd (omega (arith, splice_len_short (len - from) (omega (arith, s.6)))) in
      let at_end : splices.source d ≡ [] =
        elim (splices.splice_in_end d (splice_len (len - from)) p) [
          | inl q ↦ asked q
          | inr q ↦ q
        ] in
      let less : work len (from + 0) true < work len from false = omega arith in
      inr (
        from + 0,
        (
          true,
          (
            d',
            fill_end d len from h p ∙ ap (λ f. (ok (f, true), d')) same,
            fill-IsMoving bytes taken d len from to 0 false true sent s p (λ q. at_end),
            omega arith,
            omega (arith, less),
            λ h' q. less,
          ),
        ),
      )
  got-Filled bytes taken d len from to (suc n) sent s h p =
      let d' = (splices.splice_in d (splice_len (len - from))).1 in
      let moved = splices.splice_in_ok d (splice_len (len - from)) (suc n) p in
      let less : work len (from + suc n) false < work len from false =
        omega (arith, moved.0, splice_len_le (len - from)) in
      inr (
        from + suc n,
        (
          false,
          (
            d',
            fill_more d len from n h p,
            fill-IsMoving bytes taken d len from to (suc n) false false sent s p
                (λ q. absurd (ground arith)),
            omega arith,
            omega (arith, less),
            λ h' q. less,
          ),
        ),
      )

  pub fill-Filled :
      (bytes taken : List ℕ) (d : D) (len from to : ℕ) (eof : Bool) (sent : List ℕ)
      → IsMoving bytes taken d len from to eof sent
      → Filled bytes taken d len from to eof sent
  unfolding Filled
  fill-Filled bytes taken d len from to true sent s =
      idle-Filled bytes taken d len from to true sent s (inl refl)
  fill-Filled bytes taken d len from to false sent s = elim (le_cases from len) [
    | inr h ↦ idle-Filled bytes taken d len from to false sent s (inr h)
    | inl h ↦ elim (Result-cases (splices.splice_in d (splice_len (len - from))).0) [
      | inl (n, p) ↦ got-Filled bytes taken d len from to n sent s h p
      | inr (e, p) ↦ inl (
        e,
        (
          (splices.splice_in d (splice_len (len - from))).1,
          fill_err d len from e h p,
          (splices.splice_in_err d (splice_len (len - from)) e p).2,
        ),
      )
    ]
  ]
