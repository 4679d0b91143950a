-- ===== src/Op/Connect/Once.antt =====
-- How often a socket is connected.
use vibeio.Prelude.{
  ℕ, suc, ◌≡◌, refl, Bool, true, false, ◌⊎◌, inl, inr, List, [], ◌∷◌, Result, Result-cases, IoError,
  os, arith, ◌==◌, ◌||◌,
}
use vibeio.Join.{Poll, ready, pending}
use vibeio.Handle.{InnerRawHandle}
use vibeio.Op.Connect.{
  Sockets, ConnectOp, no_peer_yet, blocks, start_nonblocking_connect, wait_or_fail, check_peer,
  check_socket, poll_poll,
}

Poll-cases : {A : Type 0} (p : Poll A) → ((a : A) × (p ≡ ready a)) ⊎ (p ≡ pending)
Poll-cases (ready a) = inl (a, refl)
Poll-cases pending = inr refl

module _ {D : Type 0} ⦃sockets : Sockets D⦄ where
  connects-start :
      (d : D) (fd addr : ℕ)
      → sockets.connects (start_nonblocking_connect d fd addr).1 ≡ suc (sockets.connects d)
  unfolding start_nonblocking_connect
  connects-start d fd addr = ground (arith, sockets.connects-connect d fd addr)

  connects-wait_or_fail :
      (d : D) (handle : InnerRawHandle) (waker : ℕ) (waits : Bool) (e : IoError)
      → sockets.connects (wait_or_fail d handle waker waits e).1 ≡ sockets.connects d
  unfolding wait_or_fail
  connects-wait_or_fail d handle waker waits e =
      ground (arith, sockets.connects-submit_poll d handle.token waker)

  connects-check_peer :
      (d : D) (handle : InnerRawHandle) (waker : ℕ)
      → sockets.connects (check_peer d handle waker).1 ≡ sockets.connects d
  unfolding check_peer
  connects-check_peer d handle waker = elim (Result-cases (sockets.getpeername d handle.handle).0) [
    | inl (u, p) ↦ ground (arith, sockets.connects-getpeername d handle.handle)
    | inr (e, p) ↦ ground (
      arith,
      sockets.connects-getpeername d handle.handle,
      connects-wait_or_fail (sockets.getpeername d handle.handle).1 handle waker (no_peer_yet e) e,
    )
  ]

  connects-check_socket :
      (d : D) (handle : InnerRawHandle) (waker : ℕ)
      → sockets.connects (check_socket d handle waker).1 ≡ sockets.connects d
  unfolding check_socket
  connects-check_socket d handle waker =
      let after = (sockets.so_error d handle.handle).1 in
      elim (Result-cases (sockets.so_error d handle.handle).0) [
        | inl (n, p) ↦ ground (
          arith,
          sockets.connects-so_error d handle.handle,
          connects-check_peer after handle waker,
          connects-wait_or_fail after handle waker (((n == 115) || (n == 114)) || (n == 11)) (os n),
        )
        | inr (e, p) ↦ ground (
          arith,
          sockets.connects-so_error d handle.handle,
          connects-wait_or_fail after handle waker (blocks e) e,
        )
      ]

  -- A poll of an operation that has been started.
  started_poll :
      (d : D) (op : ConnectOp) (waker : ℕ)
      → op.poll_connect_started ≡ true
      → (sockets.connects (poll_poll d op waker).2 ≡ sockets.connects d)
        × ((poll_poll d op waker).1.poll_connect_started ≡ true)
  unfolding poll_poll
  started_poll d op waker s =
      (ground (arith, connects-check_socket d op.handle waker), ground arith)

  -- The first poll.
  starting_poll :
      (d : D) (op : ConnectOp) (waker : ℕ)
      → op.poll_connect_started ≡ false
      → (sockets.connects (poll_poll d op waker).2 ≡ suc (sockets.connects d))
        × ((poll_poll d op waker).0 ≡ pending
            → (poll_poll d op waker).1.poll_connect_started ≡ true)
  unfolding poll_poll
  starting_poll d op waker s =
      let begun = start_nonblocking_connect d op.handle.handle op.addr in
      elim (Result-cases begun.0) [
        | inl (u, p) ↦ (
          ground (
            arith,
            connects-start d op.handle.handle op.addr,
            connects-check_socket begun.1 op.handle waker,
          ),
          λ q. ground arith,
        )
        | inr (e, p) ↦
            (ground (arith, connects-start d op.handle.handle op.addr), λ q. absurd (ground arith))
      ]

  -- Polls of an operation until it is ready.
  unfoldable pub poll_until : D → ConnectOp → List ℕ → Poll (Result (Unit {0})) × ConnectOp × D
  poll_until d op [] = (pending, op, d)
  poll_until d op (waker ∷ wakers) =
      let polled = poll_poll d op waker in
      elim polled.0 [
        | ready answer ↦ (ready answer, polled.1, polled.2)
        | pending ↦ poll_until polled.2 polled.1 wakers
      ]

  connects-started :
      (d : D) (op : ConnectOp) (wakers : List ℕ)
      → op.poll_connect_started ≡ true
      → sockets.connects (poll_until d op wakers).2 ≡ sockets.connects d
  unfolding poll_until
  connects-started d op [] s = refl
  connects-started d op (waker ∷ wakers) s =
      let polled = poll_poll d op waker in
      let once = started_poll d op waker s in
      elim (Poll-cases polled.0) [
        | inl (answer, p) ↦ ground (arith, once.0)
        | inr p ↦ ground (arith, once.0, connects-started polled.2 polled.1 wakers once.1)
      ]

  -- However often an operation is polled until it is ready, connect(2) is called once.
  pub connects_once :
      (d : D) (op : ConnectOp) (waker : ℕ) (wakers : List ℕ)
      → op.poll_connect_started ≡ false
      → sockets.connects (poll_until d op (waker ∷ wakers)).2 ≡ suc (sockets.connects d)
  unfolding poll_until
  connects_once d op waker wakers s =
      let polled = poll_poll d op waker in
      let first = starting_poll d op waker s in
      elim (Poll-cases polled.0) [
        | inl (answer, p) ↦ ground (arith, first.0)
        | inr p ↦ ground (arith, first.0, connects-started polled.2 polled.1 wakers (first.1 p))
      ]
