-- ===== src/Signal.antt =====
-- `Signal` of vibeio/src/signal/unix.rs: the pipe from the handler to the dispatch thread, the registry
-- of the signals, and the counter and the wakers that the listeners of a signal share.
pub mod Wire
pub mod Registry
pub mod Listen
mod Tests
use vibeio.Prelude.{
  ℕ, zero, suc, ◌+◌, ◌-◌, ◌*◌, ◌/◌, ◌%◌, ◌^◌, Bool, true, false, Option, none, some, List, [], ◌∷◌,
  ◌++◌, ltb, ◌==◌, if◌then◌else◌, length, Result, ok, err, IoError,
}
use vibeio.Join.{Poll, ready, pending}

-- `to_ne_bytes` and `from_ne_bytes` of a signal's number, an i32 that is not negative.
unfoldable pub to_ne_bytes : Bool → ℕ → List ℕ
to_ne_bytes little n =
    if little
    then n % 256 ∷ n / 256 % 256 ∷ n / 65536 % 256 ∷ n / 16777216 % 256 ∷ []
    else n / 16777216 % 256 ∷ n / 65536 % 256 ∷ n / 256 % 256 ∷ n % 256 ∷ []

unfoldable pub from_ne_bytes : Bool → List ℕ → ℕ
from_ne_bytes little (a ∷ b ∷ c ∷ d ∷ []) =
    if little
    then a + b * 256 + c * 65536 + d * 16777216
    else a * 16777216 + b * 65536 + c * 256 + d
from_ne_bytes little _ = 0

-- The body of the loop over the bytes of one read: the signals that are dispatched, and `pending`.
unfoldable pub take_byte : Bool → List ℕ → ℕ → List ℕ × List ℕ
unfolding from_ne_bytes
take_byte little held byte =
    if length (held ++ byte ∷ []) == 4
    then (from_ne_bytes little (held ++ byte ∷ []) ∷ [], [])
    else ([], held ++ byte ∷ [])

unfoldable pub take_bytes : Bool → List ℕ → List ℕ → List ℕ × List ℕ
unfolding take_byte
take_bytes little held [] = ([], held)
take_bytes little held (byte ∷ bytes) =
    let first = take_byte little held byte in
    let rest = take_bytes little first.1 bytes in (first.0 ++ rest.0, rest.1)

-- What a read of the pipe gives. An end and an error go on with the next read.
pub data Read : Type 0 where
  got : (bytes : List ℕ) → Read
  end : Read
  failed : IoError → Read

-- `dispatch_loop` over the reads that come.
unfoldable pub dispatch_loop : Bool → List ℕ → List Read → List ℕ × List ℕ
unfolding take_bytes
dispatch_loop little held [] = ([], held)
dispatch_loop little held (end ∷ reads) = dispatch_loop little held reads
dispatch_loop little held (failed e ∷ reads) = dispatch_loop little held reads
dispatch_loop little held (got bytes ∷ reads) =
    let first = take_bytes little held bytes in
    let rest = dispatch_loop little first.1 reads in (first.0 ++ rest.0, rest.1)

-- The counter and the wakers of a signal. The counter is a usize.
pub record SignalState : Type 0 where
  pub counter : ℕ
  pub wakers : List ℕ

unfoldable pub register_waker : List ℕ → ℕ → List ℕ
register_waker [] waker = waker ∷ []
register_waker (existing ∷ wakers) waker =
    if existing == waker then waker ∷ wakers else existing ∷ register_waker wakers waker

-- `poll_recv` of a listener with `last_seen`: the answer, `last_seen`, and the state.
unfoldable pub poll_recv : SignalState → ℕ → ℕ → Poll (Result (Unit {0})) × ℕ × SignalState
unfolding register_waker
poll_recv state last_seen waker =
    if state.counter == last_seen
    then (pending, last_seen, record state { wakers = register_waker state.wakers waker })
    else (ready (ok tt), state.counter, state)

-- The two halves of `dispatch_signal`, the second with the wakers that it wakes.
abbrev pub count_signal : SignalState → SignalState
count_signal state = record state { counter = (state.counter + 1) % 2 ^ 64 }

abbrev pub take_wakers : SignalState → List ℕ × SignalState
take_wakers state = (state.wakers, record state { wakers = [] })
