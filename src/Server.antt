-- ===== src/Server.antt =====
-- The whole server: the connections of webserver/src/http_conn.cpp that share one epoll instance
-- and one timer list, and the event loop of webserver/src/main.cpp.
pub mod Closing
pub mod Loop
pub mod Timeout
pub mod Stopping
pub mod Timed
pub mod Startup
pub mod Turns
use Prim.Native.Nat.{bit_or}
use my_tcp_cs.Base.{
  ℕ, zero, suc, ◌+◌, ◌*◌, Bool, true, false, not, ◌&&◌, Option, none, some, List, [], ◌∷◌, ◌++◌,
  Outcome, done, undefined, terminated, ltb, ◌==◌, if◌then◌else◌, length,
}
use my_tcp_cs.Base.Int.{ℤ, suc_ℤ, pred_ℤ}
use my_tcp_cs.Timer.{del_timer}
use my_tcp_cs.Timer.Memory.{
  State, Run, ok, fault, out_of_fuel, Cmd, pure, ◌>>=◌, ◌>>◌, get_env, put_env,
}
use my_tcp_cs.Http.Types.{HttpConn, init, HttpCode, no_request}
use my_tcp_cs.Http.Respond.{Files, process_request, process_write}

-- The events that a descriptor waits for; EPOLLET and EPOLLRDHUP are in every registration.
pub record Interest : Type 0 where
  pub input : Bool
  pub output : Bool
  pub oneshot : Bool

-- The system calls that change what the kernel keeps about descriptors; `none` is a result of -1.
-- Flags are 32 bits.
pub record Kernel (K : Type 0) : Type 0 where
  pub get_flags : K → (fd : ℕ) → ℕ
  pub set_flags : K → (fd flags : ℕ) → Option K
  pub epoll_add : K → ℕ → Interest → Option K
  pub epoll_mod : K → ℕ → Interest → Option K
  pub epoll_del : K → ℕ → Option K
  pub set_reuse : K → ℕ → K
  pub close : K → ℕ → K

-- `users`, the statics of `HttpConn`, the thread pool's queue and the flags of `main`.
pub record Env (K : Type 0) : Type 0 where
  pub kernel : K
  pub users : ℕ → HttpConn
  pub user_count : ℤ
  pub tasks : List ℕ
  pub stop_server : Bool
  pub timeout : Bool

-- O_NONBLOCK
abbrev pub o_nonblock : ℕ
o_nonblock = 2048

-- MAX_FD, the number of entries of `users`.
abbrev pub max_fd : ℕ
max_fd = 65536

-- `users[u] = c`
unfoldable pub put_user {ℓ} : {A : Type ℓ} → (ℕ → A) → ℕ → A → ℕ → A
put_user users u c v = if v == u then c else users v

-- A routine of a connection, run in the server. An uncaught exception ends it like a fault.
unfoldable pub lift : {E A : Type 0} → Outcome A → Cmd E A
lift (done a) s = ok a s
lift undefined s = fault
lift terminated s = fault

module _ {K : Type 0} (os : Kernel K) where
  -- `Setnonblocking(fd)`
  unfoldable pub set_nonblocking : K → (fd : ℕ) → Option K
  set_nonblocking k fd = os.set_flags k fd (bit_or (os.get_flags k fd) o_nonblock)

  -- `Addfd(epollfd, fd, oneshot)`, with the kernel's state after it.
  unfoldable pub addfd : K → (fd : ℕ) → (oneshot : Bool) → K × Bool
  addfd k fd oneshot = elim (set_nonblocking k fd) [
    | none ↦ (k, false)
    | some k' ↦
        elim (os.epoll_add k' fd (record { input = true; output = false; oneshot = oneshot })) [
          | none ↦ (k', false)
          | some k'' ↦ (k'', true)
        ]
  ]

  -- `Removefd(epollfd, fd)`
  pub removefd : K → (fd : ℕ) → Option K
  removefd k fd = os.epoll_del k fd

  -- `Modfd(epollfd, fd, ev)`, which calls `epoll_ctl` until it succeeds: with a kernel that keeps
  -- refusing, as for the descriptor -1, no fuel is enough.
  pub modfd : (sockfd : Option ℕ) → (output : Bool) → Cmd (Env K) (Unit {0})
  modfd none output = λ s. out_of_fuel
  modfd (some fd) output = do
    env ← get_env
    elim (os.epoll_mod env.kernel fd
        (record { input = not output; output = output; oneshot = true })) [
          | none ↦ (λ s. out_of_fuel)
          | some k ↦ put_env (record env { kernel = k })
        ]

  -- `users[u].Init(fd, addr, timer, timer_list)`
  pub init_conn : (u fd addr timer : ℕ) → Cmd (Env K) Bool
  unfolding addfd
  init_conn u fd addr timer = do
    env ← get_env
    let c = record (env.users u) { sockfd = some fd; addr = addr; timer = timer }
    let (k, added) = addfd (os.set_reuse env.kernel fd) fd true
    if added
        then (do
          put_env (record env {
            kernel = k;
            users = put_user env.users u (init c);
            user_count = suc_ℤ env.user_count;
          })
          pure true)
        else (do put_env (record env { kernel = k; users = put_user env.users u c }); pure false)

  -- `users[u].CloseConn()`
  pub close_conn : (u : ℕ) → Cmd (Env K) Bool
  unfolding removefd
  close_conn u = do
    env ← get_env
    let c = env.users u
    elim c.sockfd [
      | none ↦ pure true
      | some fd ↦ elim (removefd env.kernel fd) [
        | none ↦ pure false
        | some k ↦ (do
          let c' = record c { sockfd = none }
          put_env (record env {
            kernel = os.close k fd;
            users = put_user env.users u c';
            user_count = pred_ℤ env.user_count;
          })
          if c.timer == 0 then pure true else (do
            del_timer c.timer
            env' ← get_env
            put_env (record env' { users = put_user env'.users u (record c' { timer = 0 }) })
            pure true))
      ]
    ]

  -- `cb_func(user_data)`, the one callback of the timers.
  pub invoke : (cb_func user_data : ℕ) → Cmd (Env K) (Unit {0})
  invoke f u = close_conn u >>= λ _. pure tt

  -- `while (i > 0 && CloseConn()) { --i; }`, and whether `i` came down to 0.
  pub close_repeatedly : (i u : ℕ) → Cmd (Env K) Bool
  close_repeatedly zero u = pure true
  close_repeatedly (suc i) u = do
    closed ← close_conn u
    if closed then close_repeatedly i u else pure false

  -- `users[u].Process()`. `Modfd` never returns false, so that its loop with `i` runs once.
  pub process :
      Files → (stray_code : HttpCode) → (stray : Bool) → (fuel u : ℕ) → Cmd (Env K) (Unit {0})
  unfolding close_repeatedly
  process fs stray_code stray fuel u = do
    env ← get_env
    r ← lift (process_request fs stray_code fuel (env.users u))
    elim r [
      | none ↦ (λ s. out_of_fuel)
      | some (c, code) ↦ (do
        put_env (record env { users = put_user env.users u c })
        elim code [
          | no_request ↦ modfd c.sockfd false
          | other ↦ (do
            (c', built) ← lift (process_write stray c other)
            put_env (record env { users = put_user env.users u c' })
            if built then modfd c'.sockfd true else (do
              closed ← close_repeatedly 5 u
              env' ← get_env
              if closed then pure tt else modfd (env'.users u).sockfd true))
        ])
    ]
