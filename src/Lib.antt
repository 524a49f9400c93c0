-- ===== src/Lib.antt =====
-- Models of the HTTP server under webserver/ and the theorems that make it correct.
--
-- The program. `main` (webserver/src/main.cpp) waits with epoll on one thread. A new client gets an
-- `HttpConn` of the table `users`, indexed by the descriptor, and a timer in a sorted list
-- (webserver/src/lst_timer.cpp). Input of a client is read into the connection's buffer, its timer is
-- put off, and the connection goes into the queue of a thread pool (webserver/include/threadpool.h).
-- A worker parses the request, maps the file that it names, puts the answer together and asks epoll
-- for output (webserver/src/http_conn.cpp); the main thread then writes the answer. SIGALRM and
-- SIGTERM come in through a pipe.
--
-- Which file models which part:
--   Timer         webserver/include/lst_timer.h, webserver/src/lst_timer.cpp: `Add_Timer` (add_timer,
--                 and add_timer_from for the overload), `Adjust_Timer`, `Del_Timer`, `Tick`, the
--                 destructor (clear). Timer.Memory is the C++ heap with `Util_Timer` objects at
--                 addresses, Timer.Queue the specification: lists of entries. Timer.Chain relates
--                 the two; Timer.Add, Delete, Adjust, Postpone, Tick and Clear prove the
--                 operations.
--   Http.Types    the fields of `HttpConn` (webserver/include/http_conn.h) and `Init()`.
--   Http.CStrings what the string functions and regular expressions do at the calls in the code.
--   Http.Parse    `Parse_Line`, `Parse_Request_Line`, `Parse_Head`, `Parese_Content`, `Process_Read`;
--                 Http.Lines, Http.RequestLine and Http.Progress have the proofs.
--   Http.Respond  `Do_Response`, `Unmap`, `Process_Write` and the `Add_` functions; Http.Target and
--                 Http.Response have the proofs, Http.Exchange those on `Process_Write` and `Write`.
--                 Http.Fields, Http.Headers and Http.Request are about whole requests in the
--                 parser, Http.Answering about a request from its first byte to its answer.
--   Http.Transfer `Read` and `Write`; Http.Receiving, Http.Sending and
--                 Http.Sending.Resuming have the proofs.
--   Http.Session  `Read`, `Process` and `Write` one after the other on one connection, request after
--                 request; Http.Session.Pages has the proofs.
--   Locker        the classes of webserver/include/locker.h over the pthread and semaphore calls;
--                 Locker.Waits and Locker.Balance have the proofs.
--   ThreadPool    `Append` and `Run` of webserver/include/threadpool.h as atomic steps of threads;
--                 ThreadPool.Invariant, Safety, Fifo, Holder, Progress and Rest have the proofs.
--                 ThreadPool.Startup is the constructor and the destructor, ThreadPool.Orphans what
--                 the constructor leaves.
--   Server        `Addfd`, `Removefd`, `Modfd`, `Init`, `CloseConn`, `Process`; Server.Loop the loop
--                 of `main`, Server.Startup what `main` does before and behind it. Server.Closing,
--                 Timeout, Stopping, Timed and Startup.Watching have the proofs. Server.Turns is
--                 about the event loop and the workers together: Server.Turns.Runs has their
--                 steps, Server.Turns.Exclusion the proofs over whole runs; Server.Turns.Reuse has the
--                 two halves of `CloseConn`.
--   Earlier       serverbase/webserver/src/http_conn.cpp and the loop of
--                 serverbase/webserver/src/main.cpp, an earlier stage of the server; Earlier.Startup
--                 is what its `main` does before and behind the loop. Earlier.Leaks and
--                 Earlier.Spinning have the proofs.
--   Echo          server_thread_copy.c: the table of clients, the threads' loop, and `main`
--                 (Echo.Serving); Echo.Caller is client_copy.c. Echo.Slots and Echo.Rounds have the
--                 proofs.
--   HalfClose     servertest.cpp and clienttest.cpp; HalfClose.Closing and HalfClose.Together have the
--                 proofs.
--   Base, Tests   shared definitions and lemmas; tests and the theorems at concrete inputs.
--
-- How the model is made. An access to freed, null or foreign memory is a `fault` (timers) or
-- `undefined` (buffers); an exception that nothing catches is `terminated`. A pointer into the read
-- buffer is an offset. The counters of `Write` and the result of `writev` are `int`s, kept as their
-- words of 32 bits (Base.Int); an overflow wraps around, and the theorems on what is sent assume
-- answers of fewer than 2 ^ 31 bytes, where there is none. Loops over linked lists and the parser's loop take fuel. The proofs show how
-- much is enough: as many rounds as there are timers to pass, one more for `Tick`, and for the
-- parser twice the unparsed bytes and two. `Modfd` calls the kernel until it succeeds; where the
-- kernel refuses, no fuel is enough, and the model runs out of it.
--
-- Parameters. The kernel's calls (`Kernel`, `Host`, and `Calls` of the earlier server), the pthread
-- and semaphore calls (`Pthreads`, `Threads`) and the file system (`Files`) are records of functions;
-- what `recv`, `writev`, `accept` and `time` return is in the inputs. Where a theorem needs what the
-- manual says of such a call, a record of hypotheses says so (`Counts`, `Opens`, `Watches`,
-- `Oneshot`). Two functions of the source end without the `return` that their type calls for: the
-- value that the caller sees is an input named `stray`.
--
-- Threads. ThreadPool has atomic steps below the level of its functions; `Process` may return or
-- not. Server.Turns.Runs describes those runs of the server in which a handler of the event loop,
-- or a worker's `Process`, goes through with no step of another thread in between. On the path
-- that registers the connection again little is lost by that, since the registration is the last
-- act on it. The path that closes it is different: `CloseConn` gives the descriptor back before it
-- takes it from `users`. Server.Turns.Reuse cuts `CloseConn` there, and lets a client in between.
--
-- Not modelled: output to the console, but for the texts that the exercises print; how the steps
-- inside two handlers on different threads interleave otherwise than in Server.Turns.Reuse, such as
-- a worker's `Del_Timer` with the event loop's work on the list of timers; failures of the lock's and the semaphore's calls within `Append`
-- and `Run`; `Locker::get` and the two accessors `Get_m_sockfd` and `Get_m_timer`, which give a field.
-- The thread pool and the locks of serverbase/ are those of webserver/, up to blanks and `get`, and
-- are not modelled twice. Left out is test_presure/, a copy of another project.
pub mod Base
pub mod Earlier
pub mod Echo
pub mod HalfClose
pub mod Http
pub mod Locker
pub mod Server
pub mod Tests
pub mod ThreadPool
pub mod Timer
