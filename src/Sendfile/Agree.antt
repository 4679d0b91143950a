-- ===== src/Sendfile/Agree.antt =====
-- The two ways of sending.
use vibeio.Prelude.{
  ℕ, ◌≤◌, ◌<◌, ◌^◌, ◌≡◌, refl, sym, ap, ◌∙◌, ◌⊎◌, inl, inr, Bool, true, false, some, List, ◌++◌,
  Result, ok, length, length-append, take, take_self, arith,
}
use vibeio.Sendfile.{Splices, sendfile_exact, IsSent}
use vibeio.Sendfile.Direct.{sendfile_exact_poll-IsSent}
use vibeio.Sendfile.Pipe.{sendfile_exact_completion-IsSent}

least_of_two :
    (n m a b : ℕ) → n ≤ a → n ≤ b → m ≤ a → m ≤ b → (n ≡ a) ⊎ (n ≡ b) → (m ≡ a) ⊎ (m ≡ b) → n ≡ m
least_of_two n m a b na nb ma mb (inl p) (inl q) = omega arith
least_of_two n m a b na nb ma mb (inl p) (inr q) = omega arith
least_of_two n m a b na nb ma mb (inr p) (inl q) = omega arith
least_of_two n m a b na nb ma mb (inr p) (inr q) = omega arith

module _ {D : Type 0} ⦃splices : Splices D⦄ where
  -- `sendfile_exact` always comes to an end, by sendfile(2) and, where fewer bytes than 2 ^ 32 are
  -- asked for, through a pipe, however the calls are cut short. The socket has taken a front of the file's bytes, in order, and no more than were asked
  -- for, also after an error; a success is their number, and it is what was asked for or all that
  -- there are.
  pub sendfile_exact-IsSent :
      (by_pipe : Bool) (d : D) (len : ℕ)
      → (by_pipe ≡ true → len < 2 ^ 32)
      → (out : Result ℕ × D) × (sendfile_exact by_pipe d len ≡ some out)
        × IsSent (splices.source d) (splices.sink d) len out
  unfolding sendfile_exact
  sendfile_exact-IsSent true d len h = sendfile_exact_completion-IsSent d len (h refl)
  sendfile_exact-IsSent false d len h = sendfile_exact_poll-IsSent d len

  -- A success tells what the socket has taken.
  sent_whole :
      (bytes taken : List ℕ) (len n : ℕ) (out : Result ℕ × D)
      → IsSent bytes taken len out
      → out.0 ≡ ok n
      → (n ≤ len)
        × (n ≤ length bytes)
        × ((n ≡ len) ⊎ (n ≡ length bytes))
        × (splices.sink out.1 ≡ taken ++ take n bytes)
  unfolding IsSent
  sent_whole bytes taken len n out (sent, (rest, whole, sink, most, said)) p =
      let size = length-append sent rest in
      let all = ap length whole in
      let told = said n p in
      (
        omega (arith, told.0),
        omega (arith, told.0),
        told.1,
        sink
            ∙ ap (λ xs. taken ++ xs)
                (sym (take_self sent rest)
                  ∙ ap (λ xs. take (length sent) xs) whole
                  ∙ ap (λ k. take k bytes) (sym told.0)),
      )

  -- Where both ways of sending fewer bytes than 2 ^ 32 succeed, they send the same bytes and answer the same number.
  pub sendfile_paths_agree :
      (d : D) (len n m : ℕ) (by_pipe direct : Result ℕ × D)
      → len < 2 ^ 32
      → sendfile_exact true d len ≡ some by_pipe
      → sendfile_exact false d len ≡ some direct
      → by_pipe.0 ≡ ok n
      → direct.0 ≡ ok m
      → (n ≡ m) × (splices.sink by_pipe.1 ≡ splices.sink direct.1)
  sendfile_paths_agree d len n m by_pipe direct short p q r s =
      let first = sendfile_exact-IsSent true d len (λ t. short) in
      let second = sendfile_exact-IsSent false d len (λ t. short) in
      let same : first.0 ≡ by_pipe = cc in
      let same' : second.0 ≡ direct = cc in
      let a =
        sent_whole (splices.source d) (splices.sink d) len n first.0 first.2
          (ap (λ o. o.0) same ∙ r) in
      let b =
        sent_whole (splices.source d) (splices.sink d) len m second.0 second.2
          (ap (λ o. o.0) same' ∙ s) in
      let equal : n ≡ m =
        least_of_two n m len (length (splices.source d)) a.0 a.1 b.0 b.1 a.2 b.2 in
      (
        equal,
        ap (λ o. splices.sink o.1) (sym same)
            ∙ a.3
            ∙ ap (λ k. splices.sink d ++ take k (splices.source d)) equal
            ∙ sym b.3
            ∙ ap (λ o. splices.sink o.1) same',
      )
