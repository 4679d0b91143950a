-- ===== src/Op/Accept/Tests.antt =====
-- A peer that is gone when its name is asked for: 107 is ENOTCONN.
use vibeio.Prelude.{◌≡◌, ◌≢◌, refl, true, none, [], ◌∷◌, ok, err, os, ◌==◌, ◌||◌, has}
use vibeio.Join.{ready}
use vibeio.Handle
use vibeio.Address.{SocketAddr, v4}
use vibeio.Calls.{running}
use vibeio.Calls.Table.{Table, table}
use vibeio.Op.Accept.{AcceptOp, accept_poll, finish_accept}
use vibeio.Op.Accept.Descriptors.{failed_accept_leaks}

abbrev process : Table
process = record { fds = 3 ∷ []; answer = ok 0; peer = err (os 107); child = running }

abbrev accept : AcceptOp
accept = record {
  handle = record { handle = 3; token = 0; interest = 1; mode = Handle.poll };
  completion_token = none;
}

abbrev local : SocketAddr
local = v4 (record { a = 127; b = 0; c = 0; d = 1 }) 8080

failed_accept_leaks_example :
    ((accept_poll true process accept 9).0 ≢ ready (ok (4, local)))
    × (table.opened (accept_poll true process accept 9).1 4 ≡ (4 == 4 || table.opened process 4))
    × (table.opened (finish_accept true (table.accept process 3).1 4).1 4
        ≡ (4 == 4 || table.opened process 4))
failed_accept_leaks_example =
    failed_accept_leaks true process accept 9 4 4 (os 107) (4, local) refl refl

-- The answer is an error, and the descriptor 4 is open.
leaks :
    ((accept_poll true process accept 9).0 ≡ ready (err (os 107)))
    × (has 4 (accept_poll true process accept 9).1.fds ≡ true)
unfolding accept_poll has
leaks = (refl, refl)
