-- ===== src/Tests/Connections.antt =====
-- The theorems on the whole server at one open connection whose timer comes first in the list.
use my_tcp_cs.Base.{ℕ, suc, ◌≡◌, refl, true, false, some, [], ◌∷◌, arith}
use my_tcp_cs.Base.Int.{pos}
use my_tcp_cs.Timer.{tick}
use my_tcp_cs.Timer.Memory.{State, fault}
use my_tcp_cs.Timer.Steps.{Returns}
use my_tcp_cs.Server.{Kernel, Env, close_conn, invoke}
use my_tcp_cs.Server.Closing.{Closed, close_conn-Closed, tick-close_conn-fault}
use my_tcp_cs.Server.Loop.{Event, accept_failed, raised, sigalrm, sigterm, on_events, serve}
use my_tcp_cs.Server.Stopping.{Tells, serve-Tells}
use my_tcp_cs.Server.Timeout.{serve_untimed, serve-untimed}
use my_tcp_cs.Tests.Requests.{after_reading}
use my_tcp_cs.Tests.Timers.{early, late, listing, listing-IsList}

-- A kernel that grants every call and counts the closed descriptors.
abbrev pub granting : Kernel ℕ
granting = record {
  get_flags = λ k fd. 2;
  set_flags = λ k fd flags. some k;
  epoll_add = λ k fd i. some k;
  epoll_mod = λ k fd i. some k;
  epoll_del = λ k fd. some k;
  set_reuse = λ k fd. k;
  close = λ k fd. suc k;
}

-- Every connection is on socket 7 with the timer at address 1.
abbrev serving_one : Env ℕ
serving_one = record {
  kernel = 0;
  users = λ u. after_reading [];
  user_count = pos 1;
  tasks = [];
  stop_server = false;
  timeout = false;
}

abbrev serving_state : State (Env ℕ)
serving_state = listing serving_one

close_conn-Closed_example :
    Returns
      (λ b s'. (b ≡ true) × Closed granting serving_state 7 7 0 early (late ∷ []) s')
      (close_conn granting 7 serving_state)
close_conn-Closed_example =
    close_conn-Closed granting serving_state 7 7 0 early [] (late ∷ []) refl refl refl (omega arith)
      (listing-IsList serving_one)

tick-close_conn-fault_example : tick (invoke granting) 5 16 serving_state ≡ fault
tick-close_conn-fault_example =
    tick-close_conn-fault granting 4 16 serving_state 7 0 early (late ∷ [])
      (listing-IsList serving_one) (omega arith) refl refl refl

-- SIGALRM comes in through the pipe, descriptor 4.
abbrev alarm : Event
alarm = record {
  fd = 4;
  hangup = false;
  input = true;
  output = false;
  accept = accept_failed;
  signals = raised (sigalrm ∷ []);
  recvs = [];
  writevs = [];
  now = 16;
  fresh = 3;
  eagain = false;
}

serve-untimed_example :
    serve granting 3 4 5 ((16, some (alarm ∷ [])) ∷ []) serving_state
    ≡ serve_untimed granting 3 4 5 ((16, some (alarm ∷ [])) ∷ []) serving_state
serve-untimed_example =
    serve-untimed granting 3 4 5 ((16, some (alarm ∷ [])) ∷ []) serving_state refl

-- SIGTERM comes in through the pipe.
abbrev soft_close : Event
soft_close = record alarm { signals = raised (sigalrm ∷ sigterm ∷ []) }

soft_close-Tells : Tells 3 4 soft_close
soft_close-Tells = record {
  before = sigalrm ∷ [];
  after = [];
  other = ground arith;
  at_pipe = refl;
  input = refl;
  signals = refl;
}

serve-Tells_example :
    serve granting 3 4 5
      ((16, some (soft_close ∷ alarm ∷ [])) ∷ (20, some (alarm ∷ [])) ∷ [])
      serving_state
    ≡ on_events granting 3 4 5 (soft_close ∷ alarm ∷ []) serving_state
serve-Tells_example =
    serve-Tells granting 3 4 5 16 soft_close (alarm ∷ []) ((20, some (alarm ∷ [])) ∷ [])
      serving_state soft_close-Tells refl refl
