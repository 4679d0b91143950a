-- ===== src/Lib.antt =====
-- vibeio, an asynchronous runtime of one thread. A future is spawned as a task, a task that is
-- woken stands in a queue, the executor polls the tasks of a batch at a time, and between two
-- batches it asks the timing wheel and the driver what happened.
--
-- The files and the code they are about:
--   Prelude: the Boolean tests, the lists and the 64-bit numbers that all parts share.
--   Slab: the crate slab, which the timing wheel and the driver keep their entries in, as an
--     interface of operations and laws. Slab/Slots: a list of options that fills it.
--   Wheel: `TimingWheel` of vibeio/src/timer.rs. A timer is an index of the slab, `wheels` is a
--     list of levels of slots, and the heap of expirations is a list in order, of which `peek`
--     is the head. `advance`, `cascade_level` and `process_slot_at_level_0` pass the wheel and
--     the wakers on, in the order in which the code pushes them.
--   Timer: `Timer` of vibeio/src/timer.rs, whose clock is an argument in nanoseconds.
--   Ready: the two queues of `RuntimeInner` in vibeio/src/executor.rs and the inline list
--     `next_task`, with `enqueue_if_needed` of vibeio/src/task.rs.
--   Park: the steps in which `block_on` of vibeio/src/executor.rs goes to sleep and another
--     thread wakes it, as a relation on the shared flags.
--   Join: `SpawnFuture`, `JoinHandle` and `JoinState` of vibeio/src/executor.rs.
--   Driver: `MioDriver` of vibeio/src/driver/mio.rs. Driver/Mio is the interface of the crate mio,
--     Driver/Table an implementation of it.
--   Handle: `InnerRawHandle` of vibeio/src/fd_inner.rs, over an interface of the driver's calls.
--   Uring: `UringDriver` of vibeio/src/driver/uring.rs, with its calls in Uring/Calls and its
--     completion queue in Uring/Queue. Uring/Ring is the interface of the crate io_uring, Uring/Fifo
--     an implementation of it.
--   Interval: `Interval` of vibeio/src/time/interval.rs, in nanoseconds.
--   Sleep: `Sleep` of vibeio/src/time/sleep.rs, over the timer.
--   Wrap: `AsyncWrap` of vibeio/src/util/async_wrap.rs, over an interface of the I/O object.
--     Wrap/WriteAll has the loop of its poll_write, over the writer of Copy, with the fuel as an argument.
--   Timeout: `Timeout` of vibeio/src/time/timeout.rs, over the sleep.
--   Copy: `copy` of vibeio/src/io/util.rs and `IoBufWithCursor` of vibeio/src/io/buf.rs, over
--     interfaces of a reader and a writer.
--   Op: the trait `Op` of vibeio/src/op/mod.rs and what its implementations share, poll_completion,
--     poll_result_or_wait and drop. Op/Buffer: `CompletionBuffer` of vibeio/src/op/io_util.rs. A file
--     under Op for each operation: Op/Read is vibeio/src/op/read.rs, and so on. Op/Accept has both
--     vibeio/src/op/accept.rs and vibeio/src/op/accept_unix.rs.
--   Calls: the system calls on descriptors, an interface, with Calls/Table an implementation of it.
--   Address: the addresses of sockets, of vibeio/src/op/sendto.rs and vibeio/src/op/recvfrom.rs.
--   Executor: the loop of `Runtime::block_on` of vibeio/src/executor.rs over Ready, with the polls,
--     the timer and the driver as an interface.
--   Builder: `RuntimeBuilder` of vibeio/src/builder.rs, the constructors of `AnyDriver` of
--     vibeio/src/driver/mod.rs and `CurrentRuntimeGuard` of vibeio/src/executor.rs.
--   Signal: vibeio/src/signal/unix.rs. Signal/Registry has the registry, and Signal/Listen the steps
--     of a listener and the dispatch thread as a relation.
--   Reaper: `zombie_reaper_fn_unix` of vibeio/src/process/reaper.rs.
--   Sendfile: `sendfile_exact` of vibeio/src/io/sendfile.rs, over an interface of the calls that move
--     bytes between a file, a pipe and a socket. The length of a splice is cut to 32 bits, as in the
--     entry of `SpliceOp` of vibeio/src/op/splice.rs.
--   Fs/OpenOptions: vibeio/src/fs/open_options.rs, with the flags of the standard library.
--   Fs/File: reading and writing of vibeio/src/fs/file.rs, over an interface of the disk; a
--     file that is written at an offset is not opened with O_APPEND.
--
-- Loops. The loops over levels, slots and timers run on lists and on counters that the code bounds
-- itself, and no definition needs fuel to end. There are some exceptions. The loop in which an
-- interval moves its target past now moves it by a nanosecond or more in each round, and its fuel
-- is the distance and one more. The inner loop of `copy` moves its cursor by a byte or more, and
-- its fuel is the buffer's length. The outer loop of `copy` takes its fuel as an argument, since
-- only the reader knows when it ends. So does the loop of `block_on`. The loop of a `WaitPidOp`
-- ends in its second round. `read_exact_at` and `write_exact_at` move their cursor by a byte or
-- more in each round, and their fuel is the buffer's length and one more. `sendfile_exact` moves a
-- byte into or out of its pipe in each round, or takes the file to be at its end, and its fuel is
-- twice the length that is asked for and two more.
--
-- Numbers. Ticks, slots and keys are natural numbers. The sums that the code takes in 64 bits
-- wrap in the model where the code lets them wrap, which is a release build.
--
-- Not modelled: the memory of a task and the count of its references, the order in which weak
-- memory shows the writes of one thread to another (the steps of Park are sequentially
-- consistent), and the calls of the operating system, which are arguments where they matter.
pub mod Prelude
pub mod Slab
pub mod Wheel
pub mod Timer
pub mod Ready
pub mod Park
pub mod Join
pub mod Driver
pub mod Handle
pub mod Executor
pub mod Builder
pub mod Address
pub mod Calls
pub mod Op
pub mod Uring
pub mod Signal
pub mod Interval
pub mod Sleep
pub mod Copy
pub mod Fs
pub mod Reaper
pub mod Sendfile
pub mod Timeout
pub mod Wrap
