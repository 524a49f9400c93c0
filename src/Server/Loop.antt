-- ===== src/Server/Loop.antt =====
-- The event loop of webserver/src/main.cpp, on one thread. What the kernel reports and returns is
-- in the events; the worker threads' `Process` is in the parent module.
use my_tcp_cs.Base.{
  ℕ, ◌+◌, ◌*◌, Bool, true, false, not, ◌&&◌, Option, none, some, List, [], ◌∷◌, ◌++◌, ltb, ◌==◌,
  if◌then◌else◌, length,
}
use my_tcp_cs.Base.Int.{exceeds}
use my_tcp_cs.Timer.{timeslot, add_timer, adjust_timer, tick}
use my_tcp_cs.Timer.Memory.{
  null, Cmd, fault, pure, ◌>>=◌, ◌>>◌, get_env, put_env, store, set_expire,
}
use my_tcp_cs.Http.Transfer.{Recv, read, Writev, write, Rearm, keep, for_input, for_output}
use my_tcp_cs.ThreadPool.{default_requests}
use my_tcp_cs.Server.{Kernel, Env, max_fd, put_user, lift, modfd, init_conn, close_conn, invoke}

-- What `accept` returns: a descriptor and the client's address, or a failure.
pub data Accept : Type 0 where
  accepted : (fd addr : ℕ) → Accept
  accept_failed : Accept

-- What `recv` from the signal pipe returns: signal numbers (none: the pipe is closed), a failure
-- with EAGAIN, or another failure.
pub data Signals : Type 0 where
  raised : List ℕ → Signals
  signals_again : Signals
  signals_failed : Signals

-- One entry of `events`, with what the calls made for it return: `now` is `time(nullptr)`, `fresh`
-- the address of `new Util_Timer`, and `eagain` says whether `errno` still is EAGAIN.
pub record Event : Type 0 where
  pub fd : ℕ
  pub hangup : Bool
  pub input : Bool
  pub output : Bool
  pub accept : Accept
  pub signals : Signals
  pub recvs : List Recv
  pub writevs : List Writev
  pub now : ℕ
  pub fresh : ℕ
  pub eagain : Bool

-- SIGALRM and SIGTERM.
abbrev pub sigalrm : ℕ
sigalrm = 14

abbrev pub sigterm : ℕ
sigterm = 15

module _ {K : Type 0} where
  -- The `switch` on one signal. The case of SIGALRM compares `timeout` with true and drops the
  -- result.
  unfoldable pub on_signal : (sig : ℕ) → Cmd (Env K) (Unit {0})
  on_signal sig = do
    env ← get_env
    if sig == sigalrm
        then pure tt
        else if sig == sigterm
        then put_env (record env { stop_server = true })
        else pure tt

  unfoldable pub on_signals : List ℕ → Cmd (Env K) (Unit {0})
  unfolding on_signal
  on_signals [] = pure tt
  on_signals (sig ∷ sigs) = on_signal sig >> on_signals sigs

  -- `pool->Append(users + u)`
  unfoldable pub append_task : (u : ℕ) → Cmd (Env K) (Unit {0})
  append_task u = do
    env ← get_env
    if ltb default_requests (length env.tasks)
        then pure tt
        else put_env (record env { tasks = env.tasks ++ u ∷ [] })

module _ {K : Type 0} (os : Kernel K) where
  -- The listening socket is ready. A descriptor beyond `users` is out of bounds.
  unfoldable pub on_accept : (fuel : ℕ) → Event → Accept → Cmd (Env K) (Unit {0})
  unfolding init_conn
  on_accept fuel e accept_failed = pure tt
  on_accept fuel e (accepted fd addr) = do
    env ← get_env
    if exceeds env.user_count max_fd
        then put_env (record env { kernel = os.close env.kernel fd })
        else (if not (ltb fd max_fd) then (λ s. fault) else (do
          store e.fresh (
              some (record {
                cb_func = 1;
                expire = e.now + 3 * timeslot;
                user_data = fd;
                prev = null;
                next = null;
              }))
          add_timer fuel e.fresh
          init_conn os fd fd addr e.fresh
          pure tt))

  -- The signal pipe is ready; false ends the `for` over the events.
  unfoldable pub on_pipe : Signals → Cmd (Env K) Bool
  unfolding on_signals
  on_pipe (raised sigs) = on_signals sigs >> pure true
  on_pipe signals_again = pure true
  on_pipe signals_failed = pure false

  -- A client's socket has input.
  unfoldable pub on_input : (fuel : ℕ) → Event → Cmd (Env K) (Unit {0})
  unfolding append_task
  on_input fuel e = do
    env ← get_env
    (c, complete) ← lift (read e.eagain (env.users e.fd) e.recvs)
    put_env (record env { users = put_user env.users e.fd c })
    if not complete then (close_conn os e.fd >> pure tt) else (do
      if c.timer == null
          then pure tt
          else (do set_expire c.timer (e.now + 3 * timeslot); adjust_timer fuel c.timer)
      append_task e.fd)

  -- `Write`'s effect on the registration.
  unfoldable pub rearmed : Option ℕ → Rearm → Cmd (Env K) (Unit {0})
  rearmed sockfd keep = pure tt
  rearmed sockfd for_input = modfd os sockfd false
  rearmed sockfd for_output = modfd os sockfd true

  -- A client's socket takes output.
  unfoldable pub on_output : Event → Cmd (Env K) (Unit {0})
  unfolding rearmed
  on_output e = do
    env ← get_env
    let w = write e.eagain (env.users e.fd) e.writevs
    rearmed w.conn.sockfd w.rearm
    env' ← get_env
    put_env (record env' { users = put_user env'.users e.fd w.conn })
    if w.result then pure tt else (close_conn os e.fd >> pure tt)

  -- The body of the `for` over the events; false ends it.
  unfoldable pub on_event : (listenfd pipefd fuel : ℕ) → Event → Cmd (Env K) Bool
  unfolding on_accept on_pipe on_input on_output
  on_event listenfd pipefd fuel e =
      if e.fd == listenfd
      then (on_accept fuel e e.accept >> pure true)
      else if (e.fd == pipefd) && e.input
      then on_pipe e.signals
      else if e.hangup
      then (close_conn os e.fd >> pure true)
      else if e.input
      then (on_input fuel e >> pure true)
      else if e.output
      then (on_output e >> pure true)
      else pure true

  unfoldable pub on_events : (listenfd pipefd fuel : ℕ) → List Event → Cmd (Env K) (Unit {0})
  unfolding on_event
  on_events listenfd pipefd fuel [] = pure tt
  on_events listenfd pipefd fuel (e ∷ es) = do
    more ← on_event listenfd pipefd fuel e
    if more then on_events listenfd pipefd fuel es else pure tt

  -- `timer_handler()`, but for its `alarm`.
  unfoldable pub timer_handler : (fuel now : ℕ) → Cmd (Env K) (Unit {0})
  timer_handler fuel now = tick (invoke os) fuel now

  -- One round of the `while (!stop_server)` on what `epoll_wait` reports.
  unfoldable pub round : (listenfd pipefd fuel now : ℕ) → List Event → Cmd (Env K) (Unit {0})
  unfolding on_events timer_handler
  round listenfd pipefd fuel now es = do
    on_events listenfd pipefd fuel es
    env ← get_env
    if env.timeout
        then (do timer_handler fuel now; env' ← get_env; put_env (record env' { timeout = false }))
        else pure tt

  -- The `while (!stop_server)`, on what each `epoll_wait` reports: none for a failure other than
  -- EINTR, after which the loop ends.
  unfoldable pub serve :
      (listenfd pipefd fuel : ℕ) → List (ℕ × Option (List Event)) → Cmd (Env K) (Unit {0})
  unfolding round
  serve listenfd pipefd fuel [] = pure tt
  serve listenfd pipefd fuel ((now, batch) ∷ batches) = do
    env ← get_env
    if env.stop_server then pure tt else elim batch [
      | none ↦ pure tt
      | some es ↦ (round listenfd pipefd fuel now es >> serve listenfd pipefd fuel batches)
    ]
