-- ===== src/Sendfile/Moving.antt =====
-- The bytes on their way through the pipe.
use mathlib.Core.List.{append_assoc}
use vibeio.Prelude.{
  ℕ, zero, suc, ◌+◌, ◌-◌, ◌^◌, ◌≤◌, ◌<◌, ◌≡◌, refl, sym, ap, ◌∙◌, Bool, true, List, [], ◌++◌, ok,
  err, IoError, length, length-append, take, drop, take-append-drop, length-take, length-drop,
  arith,
}
use vibeio.Sendfile.{Splices, splice_len, splice_len_le, IsSent}

drop_nothing : (n : ℕ) → drop {A = ℕ} n [] ≡ []
drop_nothing zero = refl
drop_nothing (suc n) = refl

drop_of_nil : (n : ℕ) (xs : List ℕ) → xs ≡ [] → drop n xs ≡ []
drop_of_nil n xs p = ap (drop n) p ∙ drop_nothing n

module _ {D : Type 0} ⦃splices : Splices D⦄ where
  -- Where the loop stands: what it has sent, of the file's bytes, and what is in the pipe; what was
  -- asked for is a u32.
  unfoldable pub IsMoving : List ℕ → List ℕ → D → ℕ → ℕ → ℕ → Bool → List ℕ → Type 0
  IsMoving bytes taken d len from to eof sent =
      (sent ++ (splices.pipe d ++ splices.source d) ≡ bytes)
      × (splices.sink d ≡ taken ++ sent)
      × (length sent ≡ to)
      × (to + length (splices.pipe d) ≡ from)
      × (from ≤ len)
      × (eof ≡ true → splices.source d ≡ [])
      × (len < 2 ^ 32)

  pub failed-IsSent :
      (bytes taken : List ℕ) (d d' : D) (len from to : ℕ) (eof : Bool) (sent : List ℕ) (e : IoError)
      → IsMoving bytes taken d len from to eof sent
      → splices.sink d' ≡ splices.sink d
      → IsSent bytes taken len (err e, d')
  unfolding IsMoving IsSent
  failed-IsSent bytes taken d d' len from to eof sent e s same = (
    sent,
    (
      splices.pipe d ++ splices.source d,
      s.0,
      same ∙ s.1,
      omega (arith, s.2, s.3, s.4),
      λ n p. absurd (ground arith),
    ),
  )

  -- Bytes that go from the file into the pipe.
  pub fill-IsMoving :
      (bytes taken : List ℕ) (d : D) (len from to n : ℕ) (eof eof' : Bool) (sent : List ℕ)
      → IsMoving bytes taken d len from to eof sent
      → (splices.splice_in d (splice_len (len - from))).0 ≡ ok n
      → (eof' ≡ true → splices.source d ≡ [])
      → IsMoving bytes taken
          (splices.splice_in d (splice_len (len - from))).1
          len
          (from + n)
          to
          eof'
          sent
  unfolding IsMoving
  fill-IsMoving bytes taken d len from to n eof eof' sent s p at_end =
      let moved = splices.splice_in_ok d (splice_len (len - from)) n p in
      let front = take n (splices.source d) in
      (
        ap (λ xs. sent ++ (xs ++ splices.source (splices.splice_in d (splice_len (len - from))).1))
              moved.3
            ∙ ap (λ xs. sent ++ ((splices.pipe d ++ front) ++ xs)) moved.2
            ∙ ap (λ xs. sent ++ xs)
                (append_assoc (splices.pipe d) front (drop n (splices.source d))
                  ∙ ap (λ xs. splices.pipe d ++ xs) (take-append-drop n (splices.source d)))
            ∙ s.0,
        moved.4 ∙ s.1,
        s.2,
        omega (
          arith,
          ap length moved.3,
          length-append (splices.pipe d) front,
          length-take n (splices.source d) moved.1,
          s.3,
        ),
        omega (arith, s.4, moved.0, splice_len_le (len - from)),
        λ q. moved.2 ∙ drop_of_nil n (splices.source d) (at_end q),
        s.6,
      )

  -- Bytes that go from the pipe to the socket.
  pub empty-IsMoving :
      (bytes taken : List ℕ) (d : D) (len from to n ask : ℕ) (eof : Bool) (sent : List ℕ)
      → IsMoving bytes taken d len from to eof sent
      → (splices.splice_out d ask).0 ≡ ok n
      → IsMoving bytes taken
          (splices.splice_out d ask).1
          len
          from
          (to + n)
          eof
          (sent ++ take n (splices.pipe d))
  unfolding IsMoving
  empty-IsMoving bytes taken d len from to n ask eof sent s p =
      let moved = splices.splice_out_ok d ask n p in
      let front = take n (splices.pipe d) in
      (
        ap (λ xs. (sent ++ front) ++ (xs ++ splices.source (splices.splice_out d ask).1)) moved.3
            ∙ ap (λ xs. (sent ++ front) ++ (drop n (splices.pipe d) ++ xs)) moved.2
            ∙ append_assoc sent front (drop n (splices.pipe d) ++ splices.source d)
            ∙ ap (λ xs. sent ++ xs)
                (sym (append_assoc front (drop n (splices.pipe d)) (splices.source d))
                  ∙ ap (λ xs. xs ++ splices.source d) (take-append-drop n (splices.pipe d)))
            ∙ s.0,
        moved.4 ∙ ap (λ xs. xs ++ front) s.1 ∙ append_assoc taken sent front,
        omega (arith, length-append sent front, length-take n (splices.pipe d) moved.1, s.2),
        omega (arith, ap length moved.3, length-drop n (splices.pipe d), moved.1, s.3),
        s.4,
        λ q. moved.2 ∙ s.5 q,
        s.6,
      )
