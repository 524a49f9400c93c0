-- ===== src/Server/Timed/Keeping.antt =====
-- One event of the loop of webserver/src/main.cpp keeps every open connection's timer.
use my_tcp_cs.Base.{ℕ, ◌≤◌, ◌≡◌, ◌≢◌, Bool, true, false, some, List, done}
use my_tcp_cs.Timer.Memory.{State}
use my_tcp_cs.Timer.Queue.{Entry}
use my_tcp_cs.Timer.Steps
use my_tcp_cs.Http.Types.{HttpConn}
use my_tcp_cs.Server.{Kernel, Env}
use my_tcp_cs.Server.Loop.{accepted, accept_failed, Event}
use my_tcp_cs.Server.Timed.{Timed}
use my_tcp_cs.Server.{Interest}
use my_tcp_cs.Http.Transfer.{read}
use my_tcp_cs.Server.Timed.Events.{Accepts}
use my_tcp_cs.Server.Timed.Handlers.{ForClient}

-- An event that the loop gets, with what it relies on: `epoll_wait` reports open descriptors,
-- `Read` returns, and the kernel grants the registrations that `Write` asks for.
pub data Expected {K : Type 0} (os : Kernel K) (listenfd pipefd now fuel : ℕ) (s : State (Env K))
    (es : List Entry) (e : Event) : Type 0 where
  brings_client :
      {fd addr : ℕ}
      → e.fd ≡ listenfd
      → e.accept ≡ accepted fd addr
      → Accepts now fuel s e fd es
      → Expected os listenfd pipefd now fuel s es e
  brings_none :
      e.fd ≡ listenfd
      → e.accept ≡ accept_failed
      → now ≤ e.now
      → Expected os listenfd pipefd now fuel s es e
  signals :
      e.fd ≢ listenfd
      → e.fd ≡ pipefd
      → e.input ≡ true
      → now ≤ e.now
      → Expected os listenfd pipefd now fuel s es e
  hangs_up :
      e.fd ≢ listenfd
      → e.fd ≢ pipefd
      → e.hangup ≡ true
      → now ≤ e.now
      → Expected os listenfd pipefd now fuel s es e
  gives_input :
      {d : HttpConn} {complete : Bool}
      → e.fd ≢ listenfd
      → e.fd ≢ pipefd
      → e.hangup ≡ false
      → e.input ≡ true
      → read e.eagain (s.env.users e.fd) e.recvs ≡ done (d, complete)
      → ForClient now fuel s e es
      → Expected os listenfd pipefd now fuel s es e
  takes_output :
      e.fd ≢ listenfd
      → e.fd ≢ pipefd
      → e.hangup ≡ false
      → e.input ≡ false
      → e.output ≡ true
      → (c : ForClient now fuel s e es)
      → ((k : K) (i : Interest) → (k' : K) × (os.epoll_mod k c.fd i ≡ some k'))
      → Expected os listenfd pipefd now fuel s es e
