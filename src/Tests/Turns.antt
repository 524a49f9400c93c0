-- ===== src/Tests/Turns.antt =====
-- The theorems on whole runs of the server at a client that comes in and sends two bytes, and at
-- one that epoll does not take.
use my_tcp_cs.Base.{
  ℕ, ◌+◌, ◌≤◌, ◌≡◌, refl, sym, ap, ◌∙◌, subst, Bool, true, false, none, some, [], ◌∷◌, ◌==◌,
  if◌then◌else◌, Bool-cases, inl, inr, arith,
}
use mathlib.Core.Option.{some-injective}
use my_tcp_cs.Base.Int.{pos, exceeds}
use my_tcp_cs.Timer.{add_timer}
use my_tcp_cs.Timer.Memory.{State, Run, ok, fault, out_of_fuel, get_head}
use my_tcp_cs.Http.Types.{HttpConn, new_conn, get_request}
use my_tcp_cs.Http.Transfer.{received, recv_failed}
use my_tcp_cs.Server.{Kernel, Interest, Env, put_user, set_nonblocking}
use my_tcp_cs.Server.Loop.{Event, accepted, raised, on_event}
use my_tcp_cs.Server.Turns.{Oneshot, IsClient, bit, slot, count, turns}
use my_tcp_cs.Server.Turns.Runs.{
  World, Setting, Runs, here, next, report, listen, signal, IsStart, held,
}
use my_tcp_cs.Server.Turns.Accepting.{Fresh}
use my_tcp_cs.Server.Turns.Exclusion.{Runs-single, Runs-forgotten}
use my_tcp_cs.Tests.Requests.{after_reading}
use my_tcp_cs.Tests.Answers.{one_file}

-- A kernel that keeps which descriptors are armed, and registers every descriptor but 9.
abbrev Armed : Type 0
Armed = ℕ → Bool

abbrev arm : Armed → ℕ → Bool → Armed
arm k u b v = if v == u then b else k v

abbrev one_shot : Kernel Armed
one_shot = record {
  get_flags = λ k fd. 2;
  set_flags = λ k fd flags. some k;
  epoll_add = λ k fd i. if fd == 9 then none else some (arm k fd true);
  epoll_mod = λ k fd i. some (arm k fd true);
  epoll_del = λ k fd. some (arm k fd false);
  set_reuse = λ k fd. k;
  close = λ k fd. arm k fd false;
}

some_at : (j k : Armed) (v : ℕ) → some j ≡ some k → k v ≡ j v
some_at j k v e = sym (ap (λ x. x v) (some-injective _ _ e))

added_by :
    (k k' : Armed) (u v : ℕ) (i : Interest)
    → one_shot.epoll_add k u i ≡ some k'
    → k' v ≡ (if v == u then true else k v)
added_by k k' u v i e = elim (Bool-cases (u == 9)) [
  | inl refused ↦ absurd (cc (rw refused at e))
  | inr granted ↦ some_at (arm k u true) k' v (sym (rw granted refl) ∙ e)
]

one_shot-Oneshot : Oneshot one_shot
one_shot-Oneshot = record {
  armed = λ k v. k v;
  report = λ k u. arm k u false;
  reported = λ k u v. refl;
  added = λ k k' u v i o e. added_by k k' u v i e;
  changed = λ k k' u v i o e. some_at (arm k u true) k' v e;
  removed = λ k k' u v e. some_at (arm k u false) k' v e;
  closed = λ k u v. refl;
  unblocked = λ k k' u v flags e. some_at k k' v e;
  reused = λ k u v. refl;
}

-- 3 is the listening socket, 4 the end of the pipe for signals.
abbrev setting : Setting
setting = record {
  fixed = record { listenfd = 3; pipefd = 4 };
  files = one_file;
  stray_code = get_request;
  stray = true;
}

abbrev quiet : HttpConn
quiet = record (after_reading []) { sockfd = none; addr = 0; timer = 0 }

abbrev started : State (Env Armed)
started = record {
  memory = λ p. none;
  head = 0;
  tail = 0;
  env = record {
    kernel = λ u. false;
    users = λ u. quiet;
    user_count = pos 0;
    tasks = [];
    stop_server = false;
    timeout = false;
  };
}

abbrev first_world : World Armed
first_world = record { state = started; reported = []; busy = [] }

first_world-IsStart : IsStart one_shot one_shot-Oneshot setting first_world
unfolding one_shot-Oneshot new_conn
first_world-IsStart = record {
  memory = λ v. after_reading [];
  made = λ v. refl;
  unarmed = λ v c. refl;
  no_tasks = refl;
  none_reported = refl;
  none_busy = refl;
}

abbrev event : (fd client : ℕ) → Event
event fd client = record {
  fd = fd;
  hangup = false;
  input = true;
  output = false;
  accept = accepted client 1;
  signals = raised [];
  recvs = received (71 ∷ 69 ∷ []) ∷ recv_failed ∷ [];
  writevs = [];
  now = 6;
  fresh = 5;
  eagain = true;
}

abbrev left_by : Run (Env Armed) Bool → State (Env Armed) → State (Env Armed)
left_by (ok b s) d = s
left_by fault d = d
left_by out_of_fuel d = d

-- The state after an event.
abbrev behind : State (Env Armed) → Event → State (Env Armed)
behind s e = left_by (on_event one_shot 3 4 2 e s) s

abbrev with_client : ℕ → World Armed
with_client u = record { state = behind started (event 3 u); reported = []; busy = [] }

same_client : (u fd addr : ℕ) → accepted u 1 ≡ accepted fd addr → u ≡ fd
same_client u fd addr e = cc

coming :
    (u : ℕ)
    → IsClient setting.fixed u
    → on_event one_shot 3 4 2 (event 3 u) started ≡ ok true (behind started (event 3 u))
    → Runs one_shot one_shot-Oneshot setting first_world (with_client u)
coming u c runs = next here (
    listen 2 (event 3 u) true (behind started (event 3 u)) refl
      (λ fd addr e.
        subst (λ x. Fresh setting.fixed started.env x) (same_client u fd addr e)
          (record { client = c; unused = refl }))
      runs)

seven-IsClient : IsClient setting.fixed 7
seven-IsClient = (ground arith, ground arith)

nine-IsClient : IsClient setting.fixed 9
nine-IsClient = (ground arith, ground arith)

accepting_runs : on_event one_shot 3 4 2 (event 3 7) started ≡ ok true (behind started (event 3 7))
unfolding on_event add_timer exceeds get_head set_nonblocking
accepting_runs = refl

refusing_runs : on_event one_shot 3 4 2 (event 3 9) started ≡ ok true (behind started (event 3 9))
unfolding on_event add_timer exceeds get_head set_nonblocking
refusing_runs = refl

-- The client's event is reported, and waits for the event loop.
abbrev reported_seven : World Armed
reported_seven =
    let w = with_client 7 in
    record {
      state = record w.state {
        env = record w.state.env { kernel = arm w.state.env.kernel 7 false };
      };
      reported = 7 ∷ [];
      busy = [];
    }

reporting : Runs one_shot one_shot-Oneshot setting first_world reported_seven
unfolding one_shot-Oneshot on_event add_timer exceeds get_head set_nonblocking
reporting = next (coming 7 seven-IsClient accepting_runs) (report 7 seven-IsClient refl)

Runs-single_example :
    bit (one_shot-Oneshot.armed reported_seven.state.env.kernel 7)
      + count 7 reported_seven.state.env.tasks
      + (count 7 reported_seven.reported + count 7 reported_seven.busy)
    ≤ slot (reported_seven.state.env.users 7).sockfd
Runs-single_example =
    Runs-single one_shot one_shot-Oneshot setting first_world reported_seven 7 first_world-IsStart
      reporting seven-IsClient

-- epoll does not take the descriptor 9; then signals come in.
abbrev signalled : World Armed
signalled = record { state = behind (with_client 9).state (event 4 0); reported = []; busy = [] }

signal_runs : on_event one_shot 3 4 2 (event 4 0) (with_client 9).state ≡ ok true signalled.state
unfolding on_event add_timer exceeds get_head set_nonblocking
signal_runs = refl

signalling : Runs one_shot one_shot-Oneshot setting (with_client 9) signalled
signalling =
    next here (signal 2 (event 4 0) true signalled.state (ground arith) refl refl signal_runs)

left_out :
    turns one_shot one_shot-Oneshot
      (held one_shot one_shot-Oneshot setting (with_client 9))
      (with_client 9).state.env
      9
    ≡ 0
unfolding one_shot-Oneshot on_event add_timer exceeds get_head set_nonblocking count
left_out = refl

nine_open : ((with_client 9).state.env.users 9).sockfd ≡ some 9
unfolding on_event add_timer exceeds get_head set_nonblocking put_user
nine_open = refl

Runs-forgotten_example :
    ((signalled.state.env.users 9).sockfd ≡ some 9)
    × (turns one_shot one_shot-Oneshot
          (held one_shot one_shot-Oneshot setting signalled)
          signalled.state.env
          9
        ≡ 0)
Runs-forgotten_example =
    Runs-forgotten one_shot one_shot-Oneshot setting first_world (with_client 9) signalled 9 9
      first_world-IsStart (coming 9 nine-IsClient refusing_runs) nine_open left_out signalling

-- The connection 7 is open and has no timer, and a worker closes it while the event loop accepts a
-- client that gets the descriptor 7.
abbrev closing : State (Env Armed)
closing = record started {
  env = record started.env {
    users = put_user started.env.users 7 (record quiet { sockfd = some 7 });
    user_count = pos 1;
  };
}
