-- ===== src/Wrap.antt =====
-- `AsyncWrap` of vibeio/src/util/async_wrap.rs, which gives the runtime's I/O objects tokio's traits.
-- The object `T` goes into the future of an operation and comes back with its result. The futures are
-- states that are polled; a read gives the bytes that it put into its buffer.
pub mod Bytes
pub mod WriteAll
mod Tests
use vibeio.Prelude.{
  ℕ, zero, suc, ◌+◌, ◌-◌, Bool, true, false, Option, none, some, List, [], ◌∷◌, ◌++◌, Result, ok,
  err, IoError, other, length, take, drop, min, ltb, ◌==◌, if◌then◌else◌,
}
use vibeio.Join.{Poll, ready, pending}

pub record Object (T RF FF : Type 0) : Type 0 where
  pub read : T → RF
  pub poll_read_future : RF → Poll (Result (List ℕ) × T) × RF
  pub flush : T → FF
  pub poll_flush_future : FF → Poll (Result (Unit {0}) × T) × FF

-- `read_buf` is a buffer, how much of it has been passed on, and how much was read into it.
pub record AsyncWrap (T RF FF : Type 0) : Type 0 where
  pub inner : Option T
  pub read_buf : Option (List ℕ × ℕ × ℕ)
  pub read_fut : Option RF
  pub flush_fut : Option FF

abbrev pub new : {T RF FF : Type 0} → T → AsyncWrap T RF FF
new inner = record { inner = some inner; read_buf = none; read_fut = none; flush_fut = none }

-- What a read's poll gives: the answer, the bytes that it puts into the caller's buffer, and the wrap.
pub record Read (T RF FF : Type 0) : Type 0 where
  pub answer : Poll (Result (Unit {0}))
  pub filled : List ℕ
  pub wrap : AsyncWrap T RF FF

-- The bytes of `read_buf` from the one that is next, so far as they go.
abbrev pub pass_on : List ℕ → ℕ → ℕ → ℕ → List ℕ
pass_on buf advanced n room = take (min (n - advanced) room) (drop advanced buf)

-- What stays in the buffer.
abbrev pub keep : List ℕ → ℕ → ℕ → ℕ → Option (List ℕ × ℕ × ℕ)
keep buf advanced n room =
    if ltb (advanced + min (n - advanced) room) n
    then some (buf, advanced + min (n - advanced) room, n)
    else none

module _ {T RF FF : Type 0} where
  -- What `poll_read` does with the answer of the future.
  pub end_read : AsyncWrap T RF FF → ℕ → Poll (Result (List ℕ) × T) × RF → Read T RF FF
  end_read w room (pending, future) = record {
    answer = pending;
    filled = [];
    wrap = record w { read_fut = some future };
  }
  end_read w room (ready (err e, inner), future) = record {
    answer = ready (err e);
    filled = [];
    wrap = record w { read_fut = none; inner = some inner };
  }
  end_read w room (ready (ok bytes, inner), future) = record {
    answer = ready (ok tt);
    filled = take (min (length bytes) room) bytes;
    wrap = record w {
      read_fut = none;
      inner = some inner;
      read_buf =
          if ltb (min (length bytes) room) (length bytes)
          then some (bytes, min (length bytes) room, length bytes)
          else w.read_buf;
    };
  }

module _ {T RF FF : Type 0} ⦃object : Object T RF FF⦄ where
  -- The end of `poll_read`, with the future in place.
  pub run_read : AsyncWrap T RF FF → RF → ℕ → Read T RF FF
  unfolding end_read
  run_read w future room = end_read w room (object.poll_read_future future)

  -- Without a future: the bytes that are left over, or a new read.
  pub start_read : AsyncWrap T RF FF → ℕ → Read T RF FF
  unfolding run_read
  start_read w room = elim w.read_buf [
    | some (buf, advanced, n) ↦ record {
      answer = ready (ok tt);
      filled = pass_on buf advanced n room;
      wrap = record w { read_buf = keep buf advanced n room };
    }
    | none ↦ elim w.inner [
      | none ↦ record { answer = ready (err other); filled = []; wrap = w }
      | some inner ↦ run_read (record w { inner = none }) (object.read inner) room
    ]
  ]

  pub poll_read : AsyncWrap T RF FF → ℕ → Read T RF FF
  unfolding run_read start_read
  poll_read w room =
      if room == 0
      then record { answer = ready (ok tt); filled = []; wrap = w }
      else elim w.read_fut [ none ↦ start_read w room | some future ↦ run_read w future room ]

  pub run_flush : AsyncWrap T RF FF → FF → Poll (Result (Unit {0})) × AsyncWrap T RF FF
  run_flush w future =
      let (answer, future') = object.poll_flush_future future in
      elim answer [
        | pending ↦ (pending, record w { flush_fut = some future' })
        | ready (result, inner) ↦ (ready result, record w { flush_fut = none; inner = some inner })
      ]

  pub poll_flush : AsyncWrap T RF FF → Poll (Result (Unit {0})) × AsyncWrap T RF FF
  unfolding run_flush
  poll_flush w = elim w.flush_fut [
    | some future ↦ run_flush w future
    | none ↦ elim w.inner [
      | none ↦ (ready (err other), w)
      | some inner ↦ run_flush (record w { inner = none }) (object.flush inner)
    ]
  ]
