-- ===== src/Tests/Clients.antt =====
-- The loop's invariant at a server with two clients, when a third comes.
use my_tcp_cs.Base.{
  ℕ, ◌≡◌, refl, true, false, none, some, [], ◌∷◌, ◌==◌, if◌then◌else◌, Bool-cases, inl, inr, arith,
}
use my_tcp_cs.Base.Int.{pos}
use my_tcp_cs.Http.Types.{HttpConn}
use my_tcp_cs.Server.{Env}
use my_tcp_cs.Server.Loop.{Event, accepted, signals_again}
use my_tcp_cs.Server.Timed.{Timed, HasTimer}
use my_tcp_cs.Server.Timed.Entries.{first_one, later}
use my_tcp_cs.Tests.Requests.{after_reading}
use my_tcp_cs.Tests.Timers.{early, late, listing, listing-IsList}

-- The clients 7 and 8 have the timers at 1 and 2.
abbrev pub client : ℕ → HttpConn
client u =
    if u == 7
    then record (after_reading []) { timer = 1 }
    else if u == 8
    then record (after_reading []) { sockfd = some 8; timer = 2 }
    else record (after_reading []) { sockfd = none; timer = 0 }

abbrev pub two_clients : Env ℕ
two_clients = record {
  kernel = 0;
  users = client;
  user_count = pos 2;
  tasks = [];
  stop_server = false;
  timeout = false;
}

client-HasTimer : (u fd : ℕ) → (client u).sockfd ≡ some fd → HasTimer (early ∷ late ∷ []) client u
client-HasTimer u fd open_fd = elim (Bool-cases (u == 7)) [
  | inl is_7 ↦ (early, first_one, rw is_7 refl, ground (arith, is_7))
  | inr not_7 ↦ elim (Bool-cases (u == 8)) [
    | inl is_8 ↦ (late, later first_one, rw (not_7, is_8) refl, ground (arith, is_8))
    | inr not_8 ↦ absurd (cc (rw (not_7, not_8) at open_fd))
  ]
]

pub two_clients-Timed : Timed 5 (listing two_clients)
two_clients-Timed = record {
  entries = early ∷ late ∷ [];
  list = listing-IsList two_clients;
  sorted = ((omega arith, tt), (tt, tt));
  recent = (omega arith, (omega arith, tt));
  timers = client-HasTimer;
}

-- A client comes in on descriptor 9; 3 is the listening socket, 4 the pipe.
abbrev newcomer : Event
newcomer = record {
  fd = 3;
  hangup = false;
  input = true;
  output = false;
  accept = accepted 9 1;
  signals = signals_again;
  recvs = [];
  writevs = [];
  now = 6;
  fresh = 5;
  eagain = false;
}
