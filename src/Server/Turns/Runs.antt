-- ===== src/Server/Turns/Runs.antt =====
-- The whole server of webserver/src/main.cpp as steps: epoll reports events, the event loop
-- handles them, and the workers take up queued connections and process them, in any order, but none
-- in the middle of another: Server.Turns.Reuse shows what that leaves out of `CloseConn`.
use my_tcp_cs.Base.{ℕ, ◌+◌, ◌≡◌, ◌≢◌, Bool, true, false, List, [], ◌∷◌, ◌++◌}
use my_tcp_cs.Timer.Memory.{State, ok}
use my_tcp_cs.Http.Types.{HttpConn, HttpCode, new_conn}
use my_tcp_cs.Http.Respond.{Files}
use my_tcp_cs.Server.{Kernel, Env, process}
use my_tcp_cs.Server.Loop.{Event, accepted, on_event}
use my_tcp_cs.Server.Turns.{Oneshot, count, Fixed, IsClient, Turns}
use my_tcp_cs.Server.Turns.Accepting.{Fresh}

-- The server's state, the connections whose events `epoll_wait` has reported and the loop has not
-- handled yet, and those that workers have taken from the queue and not processed yet.
pub record World (K : Type 0) : Type 0 where
  pub state : State (Env K)
  pub reported : List ℕ
  pub busy : List ℕ

-- The parameters of the runs: the fixed descriptors, the files, and what the code reads from
-- registers that it has not set.
pub record Setting : Type 0 where
  pub fixed : Fixed
  pub files : Files
  pub stray_code : HttpCode
  pub stray : Bool

module _ {K : Type 0} (os : Kernel K) (one : Oneshot os) (g : Setting) where
  -- One step of a thread or of the kernel, in the runs in which a handler, and a worker's `Process`
  -- with its calls of `CloseConn`, go through with no step of another thread in between. Other runs
  -- are not described: in them `accept` may return a descriptor that `CloseConn` has closed and not
  -- yet taken from `users`, which `listen` rules out by `Fresh`.
  pub data Step (w : World K) : World K → Type 0 where
    report :
        (u : ℕ)
        → IsClient g.fixed u
        → one.armed w.state.env.kernel u ≡ true
        → Step w (record w {
          state = record w.state {
            env = record w.state.env { kernel = one.report w.state.env.kernel u };
          };
          reported = u ∷ w.reported;
        })
    handle :
        (fuel : ℕ) (e : Event) (xs ys : List ℕ) (more : Bool) (s : State (Env K))
        → IsClient g.fixed e.fd
        → w.reported ≡ xs ++ e.fd ∷ ys
        → on_event os g.fixed.listenfd g.fixed.pipefd fuel e w.state ≡ ok more s
        → Step w (record w { state = s; reported = xs ++ ys })
    listen :
        (fuel : ℕ) (e : Event) (more : Bool) (s : State (Env K))
        → e.fd ≡ g.fixed.listenfd
        → ((fd addr : ℕ) → e.accept ≡ accepted fd addr → Fresh g.fixed w.state.env fd)
        → on_event os g.fixed.listenfd g.fixed.pipefd fuel e w.state ≡ ok more s
        → Step w (record w { state = s })
    signal :
        (fuel : ℕ) (e : Event) (more : Bool) (s : State (Env K))
        → e.fd ≢ g.fixed.listenfd
        → e.fd ≡ g.fixed.pipefd
        → e.input ≡ true
        → on_event os g.fixed.listenfd g.fixed.pipefd fuel e w.state ≡ ok more s
        → Step w (record w { state = s })
    take :
        (u : ℕ) (us : List ℕ)
        → w.state.env.tasks ≡ u ∷ us
        → Step w (record w {
          state = record w.state { env = record w.state.env { tasks = us } };
          busy = u ∷ w.busy;
        })
    work :
        (fuel u : ℕ) (xs ys : List ℕ) (s : State (Env K))
        → IsClient g.fixed u
        → w.busy ≡ xs ++ u ∷ ys
        → process os g.files g.stray_code g.stray fuel u w.state ≡ ok tt s
        → Step w (record w { state = s; busy = xs ++ ys })

  pub data Runs (w : World K) : World K → Type 0 where
    here : Runs w w
    next : {w₁ w₂ : World K} → Runs w w₁ → Step w₁ w₂ → Runs w w₂

  -- Before the first event: `users` is as its constructor leaves it, and nothing is registered or
  -- queued.
  pub record IsStart (w : World K) : Type 0 where
    pub memory : ℕ → HttpConn
    pub made : (v : ℕ) → w.state.env.users v ≡ new_conn (memory v)
    pub unarmed : (v : ℕ) → IsClient g.fixed v → one.armed w.state.env.kernel v ≡ false
    pub no_tasks : w.state.env.tasks ≡ []
    pub none_reported : w.reported ≡ []
    pub none_busy : w.busy ≡ []

  abbrev pub held : World K → ℕ → ℕ
  held w v = count v w.reported + count v w.busy

  abbrev pub Fair : (Lost : ℕ → Type 0) → World K → Type 0
  Fair Lost w = Turns os one g.fixed Lost (held w) w.state.env
