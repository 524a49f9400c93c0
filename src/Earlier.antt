-- ===== src/Earlier.antt =====
-- The earlier stage of the server: serverbase/webserver/src/http_conn.cpp and the event loop of
-- serverbase/webserver/src/main.cpp, which answer nothing yet and have no timers.
pub mod Leaks
pub mod Spinning
pub mod Startup
use Prim.Native.Nat.{bit_or}
use my_tcp_cs.Base.{
  ℕ, zero, suc, ◌+◌, Bool, true, false, not, Option, none, some, List, [], ◌∷◌, ◌++◌, Outcome, done,
  undefined, ◌>>=◌, ltb, ◌==◌, if◌then◌else◌, length,
}
use my_tcp_cs.Base.Int.{ℤ, suc_ℤ, pred_ℤ, exceeds}
use my_tcp_cs.Server.{Interest, o_nonblock, max_fd, put_user}
use my_tcp_cs.ThreadPool.{default_requests}

-- The system calls on descriptors; `none` is a result of -1. Flags are 32 bits.
pub record Calls (K : Type 0) : Type 0 where
  pub get_flags : K → (fd : ℕ) → ℕ
  pub set_flags : K → (fd flags : ℕ) → Option K
  pub epoll_add : K → (fd : ℕ) → Interest → Option K
  pub epoll_del : K → (fd : ℕ) → Option K
  pub set_reuse : K → (fd : ℕ) → K
  pub close : K → (fd : ℕ) → K

-- An `HttpConn`: `m_sockfd_`, none for -1, and `m_addr_`.
pub record Conn : Type 0 where
  pub sockfd : Option ℕ
  pub addr : ℕ

-- The kernel, `users`, `m_user_count_` and the thread pool's queue.
pub record Env (K : Type 0) : Type 0 where
  pub kernel : K
  pub users : ℕ → Conn
  pub user_count : ℤ
  pub tasks : List ℕ

-- What `accept` returns.
pub data Accept : Type 0 where
  accepted : (fd addr : ℕ) → Accept
  accept_failed : Accept

-- One entry of `events`, with what `accept` returns for it.
pub record Event : Type 0 where
  pub fd : ℕ
  pub hangup : Bool
  pub input : Bool
  pub output : Bool
  pub accept : Accept

module _ {K : Type 0} (os : Calls K) where
  -- `Setnonblocking(fd)`
  unfoldable pub set_nonblocking : K → (fd : ℕ) → Option K
  set_nonblocking k fd = os.set_flags k fd (bit_or (os.get_flags k fd) o_nonblock)

  -- `Addfd(epollfd, fd, oneshot)`, with the kernel's state after it.
  unfoldable pub addfd : K → (fd : ℕ) → (oneshot : Bool) → K × Bool
  unfolding set_nonblocking
  addfd k fd oneshot = elim (set_nonblocking k fd) [
    | none ↦ (k, false)
    | some k' ↦
        elim (os.epoll_add k' fd (record { input = true; output = false; oneshot = oneshot })) [
          | none ↦ (k', false)
          | some k'' ↦ (k'', true)
        ]
  ]

  -- `Removefd(epollfd, fd)`
  unfoldable pub removefd : K → (fd : ℕ) → Option K
  removefd k fd = os.epoll_del k fd

  -- `users[u].Init(fd, addr)`; `Init()` does nothing.
  unfoldable pub init_conn : (u fd addr : ℕ) → Env K → Env K × Bool
  unfolding addfd
  init_conn u fd addr s =
      let users = put_user s.users u (record { sockfd = some fd; addr = addr }) in
      let (k, added) = addfd (os.set_reuse s.kernel fd) fd true in
      if added
      then (record s { kernel = k; users = users; user_count = suc_ℤ s.user_count }, true)
      else (record s { kernel = k; users = users }, false)

  -- `users[u].CloseConn()`
  unfoldable pub close_conn : (u : ℕ) → Env K → Env K × Bool
  unfolding removefd
  close_conn u s = elim (s.users u).sockfd [
    | none ↦ (s, true)
    | some fd ↦ elim (removefd s.kernel fd) [
      | none ↦ (s, false)
      | some k ↦ (
        record s {
          kernel = k;
          users = put_user s.users u (record (s.users u) { sockfd = none });
          user_count = pred_ℤ s.user_count;
        },
        true,
      )
    ]
  ]

  -- `while (!users[u].CloseConn());`, none if the fuel runs out.
  unfoldable pub close_until : (fuel u : ℕ) → Env K → Option (Env K)
  unfolding close_conn
  close_until zero u s = none
  close_until (suc fuel) u s =
      let (s', closed) = close_conn u s in
      elim closed [ true ↦ some s' | false ↦ close_until fuel u s' ]

  -- `users[u].Read()` and `users[u].Write()`, which only say on the console that they would do
  -- their work.
  unfoldable pub read : (u : ℕ) → Env K → Env K × Bool
  read u s = (s, true)

  unfoldable pub write : (u : ℕ) → Env K → Env K × Bool
  write u s = (s, true)

  -- `pool->Append(users + u)`
  unfoldable pub append_task : (u : ℕ) → Env K → Env K
  append_task u s =
      if ltb default_requests (length s.tasks) then s else record s { tasks = s.tasks ++ u ∷ [] }

  -- The listening socket is ready. A descriptor beyond `users` is out of bounds.
  unfoldable pub on_accept : Accept → Env K → Outcome (Env K)
  unfolding init_conn
  on_accept accept_failed s = done s
  on_accept (accepted fd addr) s =
      if exceeds s.user_count max_fd
      then done (record s { kernel = os.close s.kernel fd })
      else if ltb fd max_fd
      then done (init_conn fd fd addr s).0
      else undefined

  -- A client's socket has input.
  unfoldable pub on_input : (u : ℕ) → Env K → Env K
  unfolding read append_task close_conn
  on_input u s =
      let (s', complete) = read u s in if complete then append_task u s' else (close_conn u s').0

  -- A client's socket takes output.
  unfoldable pub on_output : (u : ℕ) → Env K → Env K
  unfolding write close_conn
  on_output u s = let (s', sent) = write u s in if sent then s' else (close_conn u s').0

  -- The body of the `for` over the events, none if the fuel runs out.
  unfoldable pub on_event : (listenfd fuel : ℕ) → Event → Env K → Outcome (Option (Env K))
  unfolding on_accept close_until on_input on_output
  on_event listenfd fuel e s =
      if e.fd == listenfd
      then (on_accept e.accept s >>= λ s'. done (some s'))
      else if e.hangup
      then done (close_until fuel e.fd s)
      else if e.input
      then done (some (on_input e.fd s))
      else if e.output
      then done (some (on_output e.fd s))
      else done (some s)

  unfoldable pub on_events : (listenfd fuel : ℕ) → List Event → Env K → Outcome (Option (Env K))
  unfolding on_event
  on_events listenfd fuel [] s = done (some s)
  on_events listenfd fuel (e ∷ es) s = on_event listenfd fuel e s >>= λ o. elim o [
    | none ↦ done none
    | some s' ↦ on_events listenfd fuel es s'
  ]

  -- The `while (true)`, on what each `epoll_wait` reports: none for a failure other than EINTR,
  -- after which the loop ends.
  unfoldable pub serve :
      (listenfd fuel : ℕ) → List (Option (List Event)) → Env K → Outcome (Option (Env K))
  unfolding on_events
  serve listenfd fuel [] s = done (some s)
  serve listenfd fuel (none ∷ batches) s = done (some s)
  serve listenfd fuel (some es ∷ batches) s = on_events listenfd fuel es s >>= λ o. elim o [
    | none ↦ done none
    | some s' ↦ serve listenfd fuel batches s'
  ]
