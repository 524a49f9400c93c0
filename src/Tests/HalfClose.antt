-- ===== src/Tests/HalfClose.antt =====
-- servertest.cpp and clienttest.cpp, with the client's line in two portions; and the server with a
-- message that fills its buffer.
use my_tcp_cs.Base.{
  ℕ, ◌≡◌, refl, true, some, List, [], ◌∷◌, ◌++◌, map, take, drop, done, undefined, replicate,
  length-replicate, arith,
}
use my_tcp_cs.Base.Int.{pos}
use my_tcp_cs.Echo.{got}
use my_tcp_cs.HalfClose.{
  ServerCalls, ClientCalls, over_text, hello_text, max_line, server_main, client_main,
}
use my_tcp_cs.HalfClose.Closing.{HasClient, server_main-overrun}
use my_tcp_cs.HalfClose.Together.{HasServer, server_main-client_main}

abbrev portions : List (List ℕ)
portions = take 5 hello_text ∷ drop 5 hello_text ∷ []

abbrev server : ServerCalls
server = record {
  socket = some 3;
  binds = true;
  listens = true;
  accepts = some 4;
  reads = map got portions ++ got [] ∷ [];
  sends = λ n. some n;
}

abbrev client : ClientCalls
client = record { socket = some 3; connects = true; sends = λ n. some n; reply = got over_text }

server-HasClient : HasClient server
server-HasClient = record {
  listenfd = 3;
  clientfd = 4;
  socket = refl;
  binds = refl;
  listens = refl;
  accepts = refl;
}

client-HasServer : HasServer client over_text
client-HasServer = record {
  connectfd = 3;
  socket = refl;
  connects = refl;
  sends = refl;
  arrives = refl;
}

server_main-client_main_example :
    (client_main client
      ≡ done (record {
        status = pos 0;
        printed = over_text ∷ [];
        sent = some hello_text;
        shut = true;
      }))
    × (server_main server
        ≡ done (
            some
              (record { status = pos 0; printed = portions; sent = some over_text; shut = true })))
server_main-client_main_example =
    server_main-client_main server client portions [] server-HasClient
      (
        record { some_there = omega arith; short = omega arith },
        (record { some_there = omega arith; short = omega arith }, tt),
      )
      refl refl refl client-HasServer

-- The client sends as many bytes at once as the buffer holds.
abbrev filled : List ℕ
filled = replicate max_line 65

abbrev flooded : ServerCalls
flooded = record server { reads = got filled ∷ [] }

server_main-overrun_example : server_main flooded ≡ undefined
server_main-overrun_example =
    server_main-overrun flooded [] filled []
      (record {
        listenfd = 3;
        clientfd = 4;
        socket = refl;
        binds = refl;
        listens = refl;
        accepts = refl;
      })
      tt (length-replicate {A = ℕ} max_line 65) refl
