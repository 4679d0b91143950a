-- ===== src/Op/Connect/Tests.antt =====
-- Runs of connecting at fixed inputs.
use vibeio.Prelude.{arith, ℕ, zero, suc, ◌≡◌, refl, [], ◌∷◌, Result, ok, err, os, not_connected}
use vibeio.Handle
use vibeio.Handle.{InnerRawHandle}
use vibeio.Op.Connect
use vibeio.Op.Connect.{
  Sockets, ConnectOp, poll_poll, start_nonblocking_connect, check_socket, check_peer, wait_or_fail,
}
use vibeio.Op.Connect.Once.{poll_until, connects_once}

-- A connection that takes some looks at the socket.
record Line : Type 0 where
  calls : ℕ
  looks : ℕ

abbrev look : Line → Result (Unit {0}) × Line
look l = elim l.looks [ zero ↦ (ok tt, l) | suc n ↦ (err not_connected, record l { looks = n }) ]

look_lem : (l : Line) → (look l).1.calls ≡ l.calls
look_lem l = ground arith

instance abbrev lines : Sockets Line
lines = record {
  connects = λ l. l.calls;
  connect = λ l fd address. (err (os 115), record l { calls = suc l.calls });
  so_error = λ l fd. (ok 0, l);
  getpeername = λ l fd. look l;
  submit_poll = λ l token waker. (ok tt, l);
  connects-connect = λ l fd address. refl;
  connects-so_error = λ l fd. refl;
  connects-getpeername = λ l fd. look_lem l;
  connects-submit_poll = λ l token waker. refl;
}

abbrev slow_line : Line
slow_line = record { calls = 0; looks = 2 }

abbrev socket : InnerRawHandle
socket = record { handle = 5; token = 1; interest = 0; mode = Handle.RegistrationMode.poll }

polls_run :
    (poll_until slow_line (Connect.new socket 7) (1 ∷ 2 ∷ 3 ∷ [])).2
    ≡ record { calls = 1; looks = 0 }
unfolding poll_until poll_poll start_nonblocking_connect check_socket check_peer wait_or_fail
    Connect.new
polls_run = refl

connects_once_run : (poll_until slow_line (Connect.new socket 7) (1 ∷ 2 ∷ [])).2.calls ≡ 1
unfolding Connect.new
connects_once_run = connects_once slow_line (Connect.new socket 7) 1 (2 ∷ []) refl
