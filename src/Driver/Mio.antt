-- ===== src/Driver/Mio.antt =====
-- The crate mio, as the driver uses it: the registry of sources, and the poll. It is not part of the
-- repository: `Registry` states what its documentation and that of epoll promise of the calls.
use vibeio.Prelude.{ℕ, ◌≡◌, Option, none, some, List, Result, ok, err, IoError, ◌==◌, if◌then◌else◌}

pub data Outcome : Type 0 where
  polled : Outcome
  was_interrupted : Outcome
  failed : IoError → Outcome

-- `watch k fd` is the token and the interest under which the source `fd` is registered. `events k` is
-- what the last `poll` wrote into its buffer, as tokens.
pub record Registry (K : Type 0) : Type 0 where
  pub watch : K → ℕ → Option (ℕ × ℕ)
  pub events : K → List ℕ
  pub register : K → ℕ → ℕ → ℕ → Result (Unit {0}) × K
  pub reregister : K → ℕ → ℕ → ℕ → Result (Unit {0}) × K
  pub deregister : K → ℕ → Result (Unit {0}) × K
  pub poll : K → Option ℕ → Outcome × K
  -- A source that is registered is refused, as epoll does with EEXIST.
  pub register_new :
      (k : K) (fd token interest : ℕ) → (register k fd token interest).0 ≡ ok tt → watch k fd ≡ none
  pub register_ok :
      (k : K) (fd token interest j : ℕ)
      → (register k fd token interest).0 ≡ ok tt
      → watch (register k fd token interest).1 j
        ≡ (if fd == j then some (token, interest) else watch k j)
  pub register_err :
      (k : K) (fd token interest : ℕ) (e : IoError) (j : ℕ)
      → (register k fd token interest).0 ≡ err e
      → watch (register k fd token interest).1 j ≡ watch k j
  pub reregister_ok :
      (k : K) (fd token interest j : ℕ)
      → (reregister k fd token interest).0 ≡ ok tt
      → watch (reregister k fd token interest).1 j
        ≡ (if fd == j then some (token, interest) else watch k j)
  pub reregister_err :
      (k : K) (fd token interest : ℕ) (e : IoError) (j : ℕ)
      → (reregister k fd token interest).0 ≡ err e
      → watch (reregister k fd token interest).1 j ≡ watch k j
  pub deregister_ok :
      (k : K) (fd j : ℕ)
      → (deregister k fd).0 ≡ ok tt
      → watch (deregister k fd).1 j ≡ (if fd == j then none else watch k j)
  pub deregister_err :
      (k : K) (fd : ℕ) (e : IoError) (j : ℕ)
      → (deregister k fd).0 ≡ err e
      → watch (deregister k fd).1 j ≡ watch k j
  pub watch-poll : (k : K) (timeout : Option ℕ) (j : ℕ) → watch (poll k timeout).1 j ≡ watch k j
