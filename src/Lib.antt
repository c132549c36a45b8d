-- ===== src/Lib.antt =====
-- nebula-toolkit: a verification library of the toolkit's containers, logger and threading. A
-- definition has the name of the C++ function in lower case (`CommitReadSize` is
-- `commit_read_size`).
--
-- Prelude: the shared names; `size_t` arithmetic with its wrap-around (Size), lists of bytes (Lists),
--   and `memcpy` between blocks, undefined outside a block (Memory).
-- ByteQueue: a bounded queue of bytes, what a ring buffer promises.
-- RingBuffer: include/containers/ring_buffer.hpp and src/containers/ring_buffer.cpp. The class is the
--   record of its four members; `Write`, `Read` (bytes and vectors), `Peek`, `Resize`, `Clear`, the two
--   linear spaces and their commits are functions to `Option`, `none` for undefined behaviour. The two
--   versions of a function are told apart by `_vector`. `Usage` and `PrintBuffer` are left out.
-- ByteStream: include/containers/byte_stream.hpp and src/containers/byte_stream.cpp. The operators `<<` and
--   `>>` (`put_bytes`, `get_bytes` for a value or a string, `put_vector`, `get_vector`) and chains of them.
-- UnPacker: include/containers/unpacker.hpp, on a RingBuffer. `PushAndGet`, `Get`, `GetPack`, `FindKey`
--   and the three modes, one function for a round of each mode's loop. The packets delivered are a
--   list; the callbacks are arguments; log calls are left out. Both kinds of loop run on fuel, `none`
--   where it ends: a scan of `FindKey` takes a step for each place and one more, a mode's loop a round
--   for each packet or byte passed over and one more.
-- IniReader: include/logger/ini_reader.hpp. The file is an argument. Text has the text functions, also
--   those of the standard library that the reader calls, in the C locale.
-- Logger: include/logger/logger.hpp, on an IniReader and a RingBuffer. `UpdateConfig`, `ShouldLog`,
--   `LevelToString`, the lines of `LogCout`, `LogPrint` and `LogVector` (Lines), what the first two do
--   with a line (`emit`), a round of the loop of `CustThreadProc` with the bytes written to the files as
--   one sequence (`consume`), the log files and their rotation (Files), and rounds with these (Rounds).
--   Lines and rounds run under `ring_buffer_mutex_`, so that what the threads do is a sequence of them.
--   Monitor is the loop of `MonitorConfigChanges` over what `stat` gives. Lifetime is the writing thread
--   from the constructor to the end of `~Logger`: the test of its loop, its flushes, lines and rounds in any
--   order, the end of the loop, and the closing of the file, under one configuration.
-- ThreadPool: include/threading/thread_pool.hpp. A step relation: `PostTask`, the destructor's critical
--   section, the calls of `notify_one` and `notify_all` behind them, and what a thread of `WorkerLoop`
--   does under the lock (`fetch`, then `sleeps`, `begins` or `leaves`) and after it (`finishes`), in any
--   order. A wait may end by itself. Callbacks are opaque, but may post to their own pool, also while the
--   destructor runs; those that do not end are not finished.
-- TimerScheduler: include/threading/timer_scheduler.hpp. A step relation: `ScheduleOnce` (its id and time,
--   then the push), `Cancel`, a round of `RunScheduler`, and the clock, in any order. The heap is a
--   collection whose top is any of its first tasks. TimerScheduler/Thread adds `Start`, `Stop`, the waits
--   of `RunScheduler`, the notifications and the call of `PostTask`; spurious ends of a wait are left out. Thread/Pool sets
--   it beside the model of its pool: what the thread posts is what the pool gets. Thread/Stopping and
--   Thread/Ending are about the end of the thread.
--
-- Net: include/net, over the operating system as a parameter: a record of the calls that the code makes
--   (Net, Reactor, Sockets) and one of the laws that the proofs use. Net/Tcp and Net/Udp are `TcpHandler`
--   and `UdpHandler` of transport/protocol_handler.hpp on the models of RingBuffer and UnPacker; a task
--   that they schedule is counted. Net/Reactor is `ReactorCore` of core/reactor_core.hpp: its tables,
--   its event loop on the events that `epoll_wait` returns, and its constructor and destructor.
--   Net/Sockets is transport/socket_creator.hpp.
--   The read loops and the accept loop run on fuel: a read loop takes a round for each byte that waits,
--   at most, and one more. Net/Memory is a system that meets the laws.
--
-- Not modelled: the branch of `ReactorCore` for an exception that leaves a handler (no code in the repository
-- throws one there), log calls, and the tests.
pub mod Prelude
pub mod ByteQueue
pub mod RingBuffer
pub mod UnPacker
pub mod IniReader
pub mod Logger
pub mod ThreadPool
pub mod TimerScheduler
pub mod ByteStream
pub mod Net
