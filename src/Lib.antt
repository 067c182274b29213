-- ===== src/Lib.antt =====
-- Verification of the multithreading labs: the searches of labs 1, 2 and 4, the thread pool of lab
-- 3 with its queue, its statistics and its demonstration, the network protocol, server and client
-- of lab 4, and the HTTP server of lab 5.
--
-- Files and sources (paths from the root of the repository):
-- - Base (Tests, Lists, Int, Size, Fallible, Text): shared types and lemmas. Numbers are natural
--   numbers, `std::size_t` wraps at 2 ^ 64 (`add_size`, `sub_size`, `mul_size`), `int` values are
--   integers, text is a list of bytes.
-- - Blocks (Tiling, Slices): the loop that divides rows or elements among threads, which
--   lab_1/main.cpp, lab_2/main.cpp and lab_4/cpp/include/minmax.h all write out.
-- - Fork: threads that each fill their own result slot and are joined; an interleaving is the order
--   in which the slots are filled.
-- - MinMax (Extrema, Scan, Sequential, Gather, Parallel): lab_4/cpp/include/minmax.h,
--   `findMinMaxSequential` and `findMinMaxParallel`.
-- - Random: values drawn at random.
-- - Matrix (Cells, Extremes, Benchmark): lab_1/main.cpp and lab_1/matrix.h, `findMinMax`,
--   `minMaxWorker`, `findMinMaxParallel`, and `main` with the thread counts that it tries.
-- - MinCount (Absorb, Sequential, Mutex): lab_2/main.cpp, `findMinAndCount` and
--   `findMinAndCountParallelMutex`. A schedule is the list of the threads in the order in which
--   they take the mutex.
-- - MinAtomic (Invariant, Minimum, Finish, Count, Benchmark): lab_2/main.cpp,
--   `findMinAndCountParallelAtomic`. A schedule is a list of turns, each one atomic operation of a
--   thread (`act`). A turn also says which earlier value a load returns and whether
--   `compare_exchange_weak` fails without cause, so that no memory order is relied on. Benchmark is
--   `main`, with lab_2/array.h.
-- - TaskQueue (Order, Shutdown): lab_3/queue.h and lab_3/queue.cpp, class `ThreadSafeQueue`; a call
--   is one step, since each holds the mutex from its first line on. Monitor (Wakeup): its condition
--   variable, with any number of workers, notifications and spurious wake-ups.
-- - Stats (Durations, Periods, Samples): lab_3/stats_tracker.h and lab_3/stats_tracker.cpp.
-- - Pool (Spec, Places, Flags, Refinement, Shutdown, Finish, Calls, Moves, Joins):
--   lab_3/worker.cpp, `Worker::run` (`act`), and lab_3/thread_pool.h and lab_3/thread_pool.cpp, the
--   calls of `ThreadPool` (`enqueue`, `shutdown_graceful` and `shutdown_now` begin a call,
--   `proceed` goes on with it). A step ends where a mutex is given up; any number of workers and
--   callers interleave. Pool.Spec is the service with no mutex, no clock and no loop that the pool
--   refines. Its destructor is `shutdown_graceful`.
-- - Demo (Body, Ways, Invariant, Waits, Joining, Outcome): lab_3/main.cpp, on top of Pool: the
--   producers (`produce`), the coordinator (`coordinate`) and `main` (`proceed_main`), any of which
--   may take the next step, and the body of a task (`run_task`).
-- - Sockets: what the programs of labs 4 and 5 take from the socket library and give back.
-- - Protocol (Words, Streams, Messages): lab_4/cpp/include/protocol.h. What `send` and `recv`
--   return is a list that the network chooses; the byte order functions are the interface `Host`.
-- - Server (Payload, Oversize, Lifecycle, Service, Connection, Listening):
--   lab_4/cpp/src/server.cpp, the state of one client, the handlers of its messages and its worker,
--   which uses MinMax; Connection is the loop of `handleClient` and its end, as steps of the
--   client's thread and the worker; Listening is `main`, with its accept loop and the threads of
--   all clients.
-- - Client (Upload, Report, Session, Polling, Program): lab_4/cpp/src/client.cpp, its DATA payload,
--   its reading of answers, its conversation with the server, the loop that asks for the status
--   (`poll`, which is given a number of rounds), and `main` (Program, `run_main`), each with the
--   bytes that it sends; Program.Dialogue has the loop of `handleClient` on the bytes that it
--   receives (`serve`), Program.Asking and Program.Together feed each side with the bytes of the
--   other.
-- - Windows: the interface to the operating system that lab_5 uses, and what is documented of it.
-- - Cache (Lookup, Cases, Handles): lab_5/src/cache.cpp and lab_5/include/cache.h,
--   `get_file_cache`. The array of entries is a list, a pointer into it is an index.
-- - HttpServer (Names, Request, Loop, Sending, Sharing, Answer, Wanted, Delivery, Header,
--   Listening): lab_5/src/server.cpp, `handle_client` and what it calls. Names and Wanted describe,
--   without the code, which file a path names and which bytes a request line gets. Sharing has two
--   threads that send one file; Listening is `main`.
-- - Tests: runs on small inputs.
--
-- Undefined behaviour (a read out of range, a division by zero) is `none`. Most loops are
-- structural: over a list, or over the number of rounds that the bounds of the source give.
-- `send_all` ends with the list of what the calls of `send` return. The loop of
-- `send_file_response` has fuel for two calls of Windows for each byte of the file, the seek and
-- the last test (`stream_fuel`); digits are printed with fuel for twenty places, which every 64-bit
-- number has.
--
-- Outside the development: console text and encoding, measured times and sleeps; the getters
-- `stop_now_flag` and `snapshot_stats` of the pool; the Go client of lab 4, another language.
-- What is assumed of other code: `htonl` and its family convert between the machine's order and the
-- network's; a failing allocation throws; `double` is any type with its operations; the steady
-- clock does not overflow; a file that is open is not written to, since its handle does not share
-- writing.
pub mod Base
pub mod Blocks
pub mod Demo
pub mod Fork
pub mod Random
pub mod MinMax
pub mod Matrix
pub mod TaskQueue
pub mod Monitor
pub mod Sockets
pub mod Stats
pub mod Pool
pub mod MinCount
pub mod MinAtomic
pub mod Protocol
pub mod Server
pub mod Client
pub mod Windows
pub mod Cache
pub mod HttpServer
pub mod Tests
