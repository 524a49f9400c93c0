-- ===== src/Tests/Workers.antt =====
-- A worker's `Process` of a whole request at a server with two clients.
use my_tcp_cs.Base.{ℕ}
use my_tcp_cs.Timer.Memory.{State}
use my_tcp_cs.Server.{Env, put_user}
use my_tcp_cs.Server.Timed.{Timed}
use my_tcp_cs.Tests.Clients.{two_clients}
use my_tcp_cs.Tests.Timers.{listing}
use my_tcp_cs.Tests.Whole.{has_get_a}

-- The client 7 has sent its request.
abbrev with_request : State (Env ℕ)
with_request = record (listing two_clients) {
  env = record two_clients { users = put_user two_clients.users 7 has_get_a };
}
