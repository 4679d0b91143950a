-- ===== src/Op/Accept/Descriptors.antt =====
-- The descriptor of an accepted connection.
use vibeio.Prelude.{
  ℕ, ◌≡◌, ◌≢◌, Bool, false, inl, inr, ok, err, IoError, Result-cases, arith, ◌==◌, ◌||◌,
}
use vibeio.Join.{ready}
use vibeio.Address.{SocketAddr}
use vibeio.Calls.{Calls}
use vibeio.Op.Accept.{AcceptOp, accept_poll, wait_or_fail, peer_of, finish_accept}

module _ {D : Type 0} ⦃calls : Calls D⦄ where
  opened-wait_or_fail :
      (A : Type 0) (d : D) (token waker : ℕ) (e : IoError) (j : ℕ)
      → calls.opened (wait_or_fail {A = A} d token waker e).1 j ≡ calls.opened d j
  unfolding wait_or_fail
  opened-wait_or_fail A d token waker e j =
      ground (arith, calls.opened-submit_poll d token waker false j)

  opened-peer_of :
      (little : Bool) (d : D) (token waker fd j : ℕ)
      → calls.opened (peer_of little d token waker fd).1 j ≡ calls.opened d j
  unfolding peer_of
  opened-peer_of little d token waker fd j =
      let peer = calls.getpeername d fd in
      elim (Result-cases peer.0) [
        | inl (storage, p) ↦ ground (arith, calls.opened-getpeername d fd j)
        | inr (e, p) ↦ ground (
          arith,
          calls.opened-getpeername d fd j,
          opened-wait_or_fail (ℕ × SocketAddr) peer.1 token waker e j,
        )
      ]

  wait_or_fail_not_ok :
      (A : Type 0) (d : D) (token waker : ℕ) (e : IoError) (a : A)
      → (wait_or_fail d token waker e).0 ≢ ready (ok a)
  unfolding wait_or_fail
  wait_or_fail_not_ok A d token waker e a p = ground arith

  peer_of_not_ok :
      (little : Bool) (d : D) (token waker fd : ℕ) (e : IoError) (c : ℕ × SocketAddr)
      → (calls.getpeername d fd).0 ≡ err e
      → (peer_of little d token waker fd).0 ≢ ready (ok c)
  unfolding peer_of
  peer_of_not_ok little d token waker fd e c p q =
      wait_or_fail_not_ok (ℕ × SocketAddr) (calls.getpeername d fd).1 token waker e c (ground arith)

  opened-finish_accept :
      (little : Bool) (d : D) (fd j : ℕ)
      → calls.opened (finish_accept little d fd).1 j ≡ calls.opened d j
  unfolding finish_accept
  opened-finish_accept little d fd j =
      let set = calls.set_cloexec d fd in
      ground (arith, calls.opened-set_cloexec d fd j, calls.opened-getpeername set.1 fd j)

  -- Where a connection is accepted and its peer's address is not to be had, a poll answers no
  -- descriptor, and the connection's descriptor is open all the same, besides those that were open
  -- before. At the end of a completion, too, it is open whatever the answer.
  pub failed_accept_leaks :
      (little : Bool) (d : D) (op : AcceptOp) (waker fd j : ℕ) (e : IoError) (c : ℕ × SocketAddr)
      → (calls.accept d op.handle.handle).0 ≡ ok fd
      → (calls.getpeername (calls.accept d op.handle.handle).1 fd).0 ≡ err e
      → ((accept_poll little d op waker).0 ≢ ready (ok c))
        × (calls.opened (accept_poll little d op waker).1 j ≡ (fd == j || calls.opened d j))
        × (calls.opened (finish_accept little (calls.accept d op.handle.handle).1 fd).1 j
            ≡ (fd == j || calls.opened d j))
  unfolding accept_poll
  failed_accept_leaks little d op waker fd j e c p q =
      let d' = (calls.accept d op.handle.handle).1 in
      let token = op.handle.token in
      let facts = (calls.accept_ok d op.handle.handle fd j p).1 in
      (
        λ r. peer_of_not_ok little d' token waker fd e c q (ground arith),
        ground (arith, facts, opened-peer_of little d' token waker fd j),
        ground (arith, facts, opened-finish_accept little d' fd j),
      )
