-- ===== src/Http/Session/Pages.antt =====
-- A connection of webserver/src/http_conn.cpp answers requests for files one after the other.
use my_tcp_cs.Base.{
  ℕ, ◌^◌, ◌+◌, ◌<◌, ◌≡◌, List, [], ◌∷◌, ◌++◌, map, All, if◌then◌else◌, length, drop, replicate,
  codes,
}
use my_tcp_cs.Http.Types.{HttpConn, read_buffer_size, init}
use my_tcp_cs.Http.Respond.{Files}
use my_tcp_cs.Http.Transfer.{received, Writev, wrote}
use my_tcp_cs.Http.Target.{path_of}
use my_tcp_cs.Http.Headers.{any_keeps}
use my_tcp_cs.Http.Request.{Request, target_of, request_text, IsRequest}
use my_tcp_cs.Http.Receiving.{Small, joined}
use my_tcp_cs.Http.Response.Pieces.{message}
use my_tcp_cs.Http.Answering.{Serves}
use my_tcp_cs.Http.Session.{Calls}

-- A job for the server: a request for a file, the file, the portions in which the request comes,
-- and how the kernel would go on after it has taken the answer.
pub record Job : Type 0 where
  pub request : Request
  pub bytes : List ℕ
  pub chunks : List (List ℕ)
  pub rest : List Writev

abbrev pub answer_to : Job → List ℕ
answer_to j = message 200 (codes "OK") (any_keeps j.request.fields) j.bytes

abbrev pub calls_of : Job → Calls
calls_of j = record {
  recvs = map received j.chunks;
  writevs = wrote (length (answer_to j)) ∷ j.rest;
}

-- The request is one that the server understands, comes whole in small portions, and fits into the
-- buffer; the file is there, and the answer can be counted in an `int`.
pub record Answerable (fs : Files) (fuel : ℕ) (j : Job) : Type 0 where
  pub known : IsRequest j.request
  pub small : All Small j.chunks
  pub whole : joined j.chunks ≡ request_text j.request []
  pub fits : length (request_text j.request []) < read_buffer_size
  pub rounds : length j.request.fields + 1 < fuel
  pub serves : Serves fs (path_of (target_of j.request)) j.bytes
  pub counted : length (answer_to j) < 2 ^ 31

-- What `Read` leaves of a fresh connection.
has_read : (c : HttpConn) (j : Job) (text : List ℕ) → HttpConn
has_read c j text = record (init c) {
  read_buf = [] ++ (text ++ drop (length text) (replicate read_buffer_size 0));
  read_idx = length {A = ℕ} [] + length text;
}

-- The bytes behind the request in the buffer of a fresh connection.
abbrev behind : List ℕ → List ℕ
behind text = drop (length text) (replicate read_buffer_size 0)

-- What the jobs are answered by, up to the first that does not ask to keep the connection.
pub replies : List Job → List ℕ
replies [] = []
replies (j ∷ js) = answer_to j ++ (if any_keeps j.request.fields then replies js else [])
