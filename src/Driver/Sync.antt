-- ===== src/Driver/Sync.antt =====
-- The driver's slab and mio's sources agree: every registration is a source under its own token, with
-- the interest that it remembers, and every source has its registration.
use vibeio.Prelude.{
  ℕ, ◌≡◌, none, some, ◌⊎◌, inl, inr, arith, ◌==◌, if◌then◌else◌, Option-cases, Bool-cases,
}
use vibeio.Slab.{Slab}
use vibeio.Driver.Mio.{Registry}
use vibeio.Driver.{Registration, MioDriver, set_interest}

module _ {S K : Type 0} ⦃slab : Slab S Registration⦄ ⦃registry : Registry K⦄ where
  -- `k` is what mio knows, `s` is the slab.
  pub record IsInSync (s : S) (k : K) : Type 0 where
    pub listed :
        (token : ℕ) (r : Registration)
        → slab.get s token ≡ some r
        → (i : ℕ) × (registry.watch k r.fd ≡ some (token, i))
          × ((j : ℕ) → r.interest ≡ some j → j ≡ i)
    pub known :
        (fd token i : ℕ)
        → registry.watch k fd ≡ some (token, i)
        → (r : Registration) × (slab.get s token ≡ some r) × (r.fd ≡ fd)

  abbrev pub IsSynced : MioDriver S K → Type 0
  IsSynced d = IsInSync d.registrations d.poll

  pub new-IsSynced :
      (poll : K) → ((fd : ℕ) → registry.watch poll fd ≡ none) → IsInSync slab.empty poll
  new-IsSynced poll h = record {
    listed = λ token r p. absurd (ground (arith, slab.get-empty token));
    known = λ fd token i p. absurd (ground (arith, h fd));
  }

  -- Registering a source that mio takes.
  pub insert-IsInSync :
      (s : S) (k k' : K) (r : Registration) (interest : ℕ)
      → IsInSync s k
      → registry.watch k r.fd ≡ none
      → r.interest ≡ some interest
      → ((j : ℕ)
          → registry.watch k' j
            ≡ (if r.fd == j then some ((slab.insert s r).0, interest) else registry.watch k j))
      → IsInSync (slab.insert s r).1 k'
  insert-IsInSync s k k' r interest h new_source same w = record {
    listed = λ token r' p. elim (Bool-cases ((slab.insert s r).0 == token)) [
      | inl q ↦ (
        interest,
        ground (arith, slab.get-insert s r token, w r'.fd),
        λ j o. ground (arith, slab.get-insert s r token),
      )
      | inr q ↦
          let (i, a, b) = h.listed token r' (ground (arith, slab.get-insert s r token)) in
          (i, ground (arith, w r'.fd), b)
    ];
    known = λ fd token i p. elim (Bool-cases (r.fd == fd)) [
      | inl q ↦ (r, ground (arith, slab.get-insert s r token, w fd), ground arith)
      | inr q ↦
          let (r', a, b) = h.known fd token i (ground (arith, w fd)) in
          (r', ground (arith, slab.get-insert s r token, slab.insert_vacant s r), b)
    ];
  }

  -- Giving a source up.
  pub remove-IsInSync :
      (s : S) (k k' : K) (token : ℕ) (r : Registration)
      → IsInSync s k
      → slab.get s token ≡ some r
      → ((j : ℕ) → registry.watch k' j ≡ (if r.fd == j then none else registry.watch k j))
      → IsInSync (slab.remove s token) k'
  remove-IsInSync s k k' token r h at w = record {
    listed = λ token' r' p.
        let (i, a, b) = h.listed token' r' (ground (arith, slab.get-remove s token token')) in
        (i, ground (arith, w r'.fd, h.listed token r at, slab.get-remove s token token'), b);
    known = λ fd token' i p.
        let (r', a, b) = h.known fd token' i (ground (arith, w fd)) in
        (r', ground (arith, slab.get-remove s token token', w fd), b);
  }

  -- Changing the interest of a source.
  pub interest-IsInSync :
      (s : S) (k k' : K) (token interest : ℕ) (r : Registration)
      → IsInSync s k
      → slab.get s token ≡ some r
      → ((j : ℕ)
          → registry.watch k' j
            ≡ (if r.fd == j then some (token, interest) else registry.watch k j))
      → IsInSync (slab.update s token (set_interest (some interest))) k'
  interest-IsInSync s k k' token interest r h at w = record {
    listed = λ token' r' p. elim (Bool-cases (token == token')) [
      | inl q ↦ (
        interest,
        ground (arith, slab.get-update s token (set_interest (some interest)) token', w r'.fd),
        λ j o. ground (arith, slab.get-update s token (set_interest (some interest)) token'),
      )
      | inr q ↦
          let (i, a, b) =
            h.listed token' r'
              (ground (arith, slab.get-update s token (set_interest (some interest)) token')) in
          (i, ground (arith, w r'.fd, h.listed token r at), b)
    ];
    known = λ fd token' i p. elim (Bool-cases (r.fd == fd)) [
      | inl q ↦ (
        set_interest (some interest) r,
        ground (arith, slab.get-update s token (set_interest (some interest)) token', w fd),
        ground arith,
      )
      | inr q ↦
          let (r', a, b) = h.known fd token' i (ground (arith, w fd)) in
          (
            r',
            ground (arith, slab.get-update s token (set_interest (some interest)) token', w fd),
            b,
          )
    ];
  }

  -- Changes that leave the source and either keep the interest or forget it.
  pub update-IsInSync :
      (s : S) (k : K) (token : ℕ) (f : Registration → Registration)
      → ((r : Registration)
          → ((f r).fd ≡ r.fd) × (((f r).interest ≡ r.interest) ⊎ ((f r).interest ≡ none)))
      → IsInSync s k
      → IsInSync (slab.update s token f) k
  update-IsInSync s k token f keeps h = record {
    listed = λ token' r' p.
        let (r, a, same) = updated token' r' p in
        let (i, b, c) = h.listed token' r a in
        (i, ground (arith, same, keeps r), λ j o. ground (arith, same, keeps r, c j));
    known = λ fd token' i p.
        let (r, a, b) = h.known fd token' i p in
        (
          (if token == token' then f r else r),
          ground (arith, slab.get-update s token f token'),
          ground (arith, keeps r),
        );
  }
    where
      updated :
          (j : ℕ) (r' : Registration)
          → slab.get (slab.update s token f) j ≡ some r'
          → (r : Registration) × (slab.get s j ≡ some r) × ((r' ≡ f r) ⊎ (r' ≡ r))
      updated j r' p = elim (Option-cases (slab.get s j)) [
        | inl q ↦ absurd (ground (arith, slab.get-update s token f j))
        | inr (r, q) ↦ (r, q, ground (arith, slab.get-update s token f j))
      ]

  -- The agreement is about what the slab and mio answer.
  pub same-IsInSync :
      (s s' : S) (k k' : K)
      → ((token : ℕ) → slab.get s' token ≡ slab.get s token)
      → ((fd : ℕ) → registry.watch k' fd ≡ registry.watch k fd)
      → IsInSync s k
      → IsInSync s' k'
  same-IsInSync s s' k k' gets watches h = record {
    listed = λ token r p.
        let (i, a, b) = h.listed token r (ground (arith, gets token)) in
        (i, ground (arith, watches r.fd), b);
    known = λ fd token i p.
        let (r, a, b) = h.known fd token i (ground (arith, watches fd)) in
        (r, ground (arith, gets token), b);
  }
