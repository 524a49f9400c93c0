-- ===== src/Server/Startup.antt =====
-- webserver/src/main.cpp before and behind its loop: `AddSig`, `sig_handler`, the set-up in `main`
-- and the closing of descriptors at its end.
pub mod Watching
use my_tcp_cs.Base.{
  ℕ, zero, suc, ◌+◌, ◌-◌, ◌%◌, ◌^◌, Bool, true, false, Option, none, some, List, [], ◌∷◌,
  if◌then◌else◌,
}
use my_tcp_cs.Base.Int.{ℤ, pos, negsuc}
use my_tcp_cs.Timer.{timeslot}
use my_tcp_cs.Locker.{Pthreads}
use my_tcp_cs.ThreadPool.{default_requests}
use my_tcp_cs.ThreadPool.Startup.{Threads, PoolObject, made, threw, new_pool, delete_pool}
use my_tcp_cs.Server.{Kernel, set_nonblocking, addfd}
use my_tcp_cs.Server.Loop.{sigalrm, sigterm}

-- What a signal does: SIG_IGN, or `sig_handler`.
pub data Handler : Type 0 where
  ignored : Handler
  handled : Handler

-- The calls that `main` makes; false and `none` are a result of -1. `sigaction` gets the flag
-- SA_RESTART and blocks all signals meanwhile.
pub record Host (W : Type 0) : Type 0 where
  pub kernel : Kernel W
  pub pthreads : Pthreads W
  pub threads : Threads W
  pub atoi : List ℕ → ℤ
  pub sigaction : W → (sig : ℕ) → Handler → (restart : Bool) → W
  pub socket : W → W × Option ℕ
  pub bind : W → (fd port : ℕ) → W × Bool
  pub listen : W → (fd backlog : ℕ) → W × Bool
  pub epoll_create : W → W × Option ℕ
  pub socketpair : W → W × Option (ℕ × ℕ)
  pub alarm : W → (seconds : ℕ) → W
  pub send : W → (fd : ℕ) → List ℕ → W

-- How a part of the set-up ends: `exits` by `exit`, `aborts` by `assert`.
pub data Result (A : Type 0) : Type 0 where
  goes_on : A → Result A
  exits : (status : ℤ) → Result A
  aborts : Result A

abbrev pub Setup : (W A : Type 0) → Type 0
Setup W A = W → W × Result A

module _ {W A B : Type 0} where
  unfoldable pub after : W × Result A → (A → Setup W B) → W × Result B
  after (w, goes_on a) k = k a w
  after (w, exits status) k = (w, exits status)
  after (w, aborts) k = (w, aborts)

  infixl 5 ◌>>=◌ ◌>>◌
  abbrev pub ◌>>=◌ : Setup W A → (A → Setup W B) → Setup W B
  m >>= k = λ w. after (m w) k

  abbrev pub ◌>>◌ : Setup W A → Setup W B → Setup W B
  m >> n = m >>= λ _. n

-- SIGPIPE.
abbrev pub sigpipe : ℕ
sigpipe = 13

-- `htons(port)` keeps the low 16 bits of an `int`.
unfoldable pub low16 : ℤ → ℕ
low16 (pos n) = n % 2 ^ 16
low16 (negsuc n) = 2 ^ 16 - 1 - n % 2 ^ 16

-- The descriptors that the loop works with; `epollfd` is none where `epoll_create` has failed,
-- which is not checked. `pipe_out` is `pipefd[0]`, `pipe_in` is `pipefd[1]`.
pub record Listening : Type 0 where
  pub listenfd : ℕ
  pub epollfd : Option ℕ
  pub pipe_out : ℕ
  pub pipe_in : ℕ
  pub pool : PoolObject

module _ {W : Type 0} (h : Host W) where
  -- `sig_handler(sig)`: one byte, the lowest of `sig`.
  unfoldable pub sig_handler : (pipe_in sig : ℕ) → W → W
  sig_handler pipe_in sig w = h.send w pipe_in (sig % 2 ^ 8 ∷ [])

  -- `AddSig(sig, handler)`
  unfoldable pub add_sig : (sig : ℕ) → Handler → Setup W (Unit {0})
  add_sig sig handler w = (h.sigaction w sig handler true, goes_on tt)

  -- The test of `argc`.
  unfoldable pub port_arg : List (List ℕ) → Setup W (List ℕ)
  port_arg (program ∷ port ∷ rest) w = (w, goes_on port)
  port_arg argv w = (w, exits (pos 1))

  -- `new ThreadPool<HttpConn>`, whose lock and semaphore are at `mutex` and `sem`.
  unfoldable pub make_pool : (mutex sem : ℕ) → Setup W PoolObject
  make_pool mutex sem w =
      let (w', r) = new_pool h.pthreads h.threads mutex sem w (pos 8) (pos default_requests) in
      elim r [ made p ↦ (w', goes_on p) | threw running ↦ (w', exits (pos 1)) ]

  -- A call that has to succeed, as the code tests it.
  unfoldable pub required : {A : Type 0} → W × Option A → W × Result A
  required (w, none) = (w, exits (negsuc 0))
  required (w, some a) = (w, goes_on a)

  unfoldable pub required_true : W × Bool → W × Result (Unit {0})
  required_true (w, true) = (w, goes_on tt)
  required_true (w, false) = (w, exits (negsuc 0))

  -- `socket`, `setsockopt`, `bind` and `listen`.
  unfoldable pub open_listener : (port : ℕ) → Setup W ℕ
  unfolding required required_true
  open_listener port = do
    fd ← λ w. required (h.socket w)
    (λ w. (h.kernel.set_reuse w fd, goes_on tt))
    (λ w. required_true (h.bind w fd port))
    (λ w. required_true (h.listen w fd 128))
    (λ w. (w, goes_on fd))

  -- `socketpair` with its `assert`.
  unfoldable pub make_pair : Setup W (ℕ × ℕ)
  make_pair w =
      let (w', r) = h.socketpair w in elim r [ none ↦ (w', aborts) | some p ↦ (w', goes_on p) ]

  -- `Setnonblocking(pipefd[1])`
  unfoldable pub free_pipe : (pipe_in : ℕ) → Setup W (Unit {0})
  free_pipe pipe_in w = elim (set_nonblocking h.kernel w pipe_in) [
    | none ↦ (w, exits (negsuc 0))
    | some w' ↦ (w', goes_on tt)
  ]

  -- The pipe for signals. The result of the last call, which registers its end, is dropped.
  unfoldable pub make_pipe : Setup W (ℕ × ℕ)
  unfolding make_pair free_pipe addfd
  make_pipe = do
    pipefd ← make_pair
    free_pipe pipefd.1
    (λ w. ((addfd h.kernel w pipefd.0 false).0, goes_on pipefd))

  -- `close(fd)`; `close(-1)` does nothing.
  unfoldable pub close_any : Option ℕ → W → W
  close_any none w = w
  close_any (some fd) w = h.kernel.close w fd

  -- The signals' handlers and the first `alarm`.
  unfoldable pub arm_signals : Setup W (Unit {0})
  unfolding add_sig
  arm_signals = do
    add_sig sigalrm handled
    add_sig sigterm handled
    (λ w. (h.alarm w timeslot, goes_on tt))

  -- `main` up to its loop.
  unfoldable pub start_main : (mutex sem : ℕ) → List (List ℕ) → Setup W Listening
  unfolding add_sig port_arg make_pool low16 open_listener required_true make_pipe arm_signals addfd
  start_main mutex sem argv = do
    port ← port_arg argv
    add_sig sigpipe ignored
    pool ← make_pool mutex sem
    listenfd ← open_listener (low16 (h.atoi port))
    epollfd ← λ w. (let (w', fd) = h.epoll_create w in (w', goes_on fd))
    (λ w. required_true (addfd h.kernel w listenfd false))
    pipefd ← make_pipe
    arm_signals
    (λ w. (
      w,
      goes_on (record {
        listenfd = listenfd;
        epollfd = epollfd;
        pipe_out = pipefd.0;
        pipe_in = pipefd.1;
        pool = pool;
      }),
    ))

  -- `main` behind its loop.
  unfoldable pub shut_down : (mutex sem : ℕ) → Listening → W → W × PoolObject
  unfolding close_any delete_pool
  shut_down mutex sem l w =
      let w' =
        close_any (some l.pipe_in)
          (close_any (some l.pipe_out) (close_any (some l.listenfd) (close_any l.epollfd w))) in
      delete_pool h.pthreads h.threads mutex sem w' l.pool
