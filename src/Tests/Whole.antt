-- ===== src/Tests/Whole.antt =====
-- The theorems on whole requests at a request for a small file.
use my_tcp_cs.Base.{◌≡◌, refl, true, false, some, [], ◌∷◌, codes, done, arith}
use my_tcp_cs.Http.CStrings.{until_nul, contains, search_header, eq_no_case}
use my_tcp_cs.Http.Fields.{keeps_alive}
use my_tcp_cs.Http.Types.{HttpConn, no_request, line_ok}
use my_tcp_cs.Http.Parse.{process_read, respond}
use my_tcp_cs.Http.Target.{path_of}
use my_tcp_cs.Http.Headers.{IsField, any_keeps}
use my_tcp_cs.Http.Request.{Request, request_text, IsRequest, HasRead, Parsed, process_read-request}
use my_tcp_cs.Http.Answering.{Serves}
use my_tcp_cs.Tests.Requests.{tight, above-Plain, above-Wordy}
use my_tcp_cs.Tests.Answers.{one_file, page}

-- "GET /a HTTP/1.1" with two header lines.
abbrev pub get_a : Request
get_a = record {
  method = codes "GET";
  path = codes "a";
  version = codes "HTTP/1.1";
  fields = codes "Host: b" ∷ codes "Connection: keep-alive" ∷ [];
}

pub IsField-host : IsField (codes "Host: b")
IsField-host = record {
  some_there = omega arith;
  plain = above-Plain (codes "Host: b") refl;
  no_body = unfold search_header in λ e. cc;
}

IsField-connection : IsField (codes "Connection: keep-alive")
IsField-connection = record {
  some_there = omega arith;
  plain = above-Plain (codes "Connection: keep-alive") refl;
  no_body = unfold search_header in λ e. cc;
}

pub get_a-IsRequest : IsRequest get_a
get_a-IsRequest = record {
  method_word = above-Wordy (codes "GET") refl;
  path_word = above-Wordy (codes "a") refl;
  version_word = above-Wordy (codes "HTTP/1.1") refl;
  plain = above-Plain (codes "GET /a HTTP/1.1") refl;
  is_get = unfold eq_no_case in refl;
  known = unfold eq_no_case in refl;
  no_body = (IsField-host, (IsField-connection, tt));
}

abbrev pub has_get_a : HttpConn
has_get_a = tight (request_text get_a [])

pub get_a-HasRead : HasRead has_get_a (request_text get_a (0 ∷ []))
get_a-HasRead = record {
  read_buf = refl;
  checked_idx = refl;
  start_of_line = refl;
  check_status = refl;
  content_length = refl;
  linger = refl;
}

process_read-request_example :
    (c' : HttpConn) × (process_read no_request 9 has_get_a line_ok ≡ done (some (c', respond)))
    × Parsed has_get_a c' get_a
process_read-request_example =
    process_read-request no_request 9 has_get_a get_a (0 ∷ []) [] (λ e. cc) get_a-IsRequest
      get_a-HasRead (unfold until_nul in refl) (omega arith)

-- The second header line asks to keep the connection.
get_a_keeps : any_keeps get_a.fields ≡ true
unfolding keeps_alive search_header contains
get_a_keeps = refl

pub one_file-Serves : Serves one_file (path_of (codes "/a")) page
one_file-Serves = record {
  found = record { others_read = true; is_dir = false; size = 5 };
  stat = refl;
  readable = refl;
  a_file = refl;
  opens = refl;
  mapped = refl;
  whole = refl;
}
