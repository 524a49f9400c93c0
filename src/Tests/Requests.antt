-- ===== src/Tests/Requests.antt =====
-- The parser of webserver/src/http_conn.cpp run on whole requests.
use my_tcp_cs.Base.{
  ℕ, ◌≡◌, ◌≢◌, refl, Bool, true, ◌&&◌, ltb, All, arith, ◌-◌, List, [], ◌∷◌, ◌++◌, Option, none,
  some, Outcome, done, terminated, undefined, false, length, replicate, codes, cr, lf,
}
use my_tcp_cs.Http.Types.{
  HttpConn, Iovec, buffer_at, read_buffer_size, filename_len, get, no_request, line_ok, header,
  request_line,
}
use my_tcp_cs.Http.Parse.{process_read, parse_request_line, parse_head, Next, respond}
use my_tcp_cs.Http.CStrings.{
  c_string, search_crlf, poke, find_space, eq_no_case, starts_no_case, search_header,
  leading_digits, stoi, is_digit,
}
use my_tcp_cs.Http.Transfer.{received, read}
use my_tcp_cs.Http.Receiving.{read-chunks, read-wide}
use my_tcp_cs.Http.Progress.{process_read-enough}
use my_tcp_cs.Http.Lines.{Plain, parse_head-content_length}
use my_tcp_cs.Http.RequestLine.{parse_request_line-accepts}
use my_tcp_cs.Http.RequestLine.Words.{Wordy}

abbrev unset : Iovec
unset = record { base = buffer_at 0; len = 0 }

-- A connection on socket 7 after `Init` that has read `bytes`.
abbrev pub after_reading : List ℕ → HttpConn
after_reading bytes = record {
  sockfd = some 7;
  addr = 1;
  timer = 1;
  read_buf = bytes ++ replicate (read_buffer_size - length bytes) 0;
  read_idx = length bytes;
  checked_idx = 0;
  start_of_line = 0;
  write_buf = [];
  iv0 = unset;
  iv1 = unset;
  iv_count = 0;
  bytes_to_send = 0;
  bytes_have_send = 0;
  check_status = request_line;
  method = get;
  real_file = replicate filename_len 0;
  real_file_stat = record { others_read = false; is_dir = false; size = 0 };
  file_address = none;
  url = none;
  version = none;
  host = none;
  content_length = 0;
  linger = false;
}

abbrev crlf : List ℕ
crlf = cr ∷ lf ∷ []

abbrev with_body : List ℕ
with_body =
    codes "GET / HTTP/1.1" ++ crlf ++ codes "Content-Length: 3" ++ crlf ++ crlf ++ codes "abc"

abbrev simple_get : List ℕ
simple_get = codes "GET /index.html HTTP/1.1" ++ crlf ++ codes "Host: a" ++ crlf ++ crlf

abbrev outcome_of : Outcome (Option (HttpConn × Next)) → Option Next
outcome_of (done (some (c, n))) = some n
outcome_of _ = none

-- A whole request is read to its end.
simple_get_parses :
    outcome_of (process_read no_request 20 (after_reading simple_get) line_ok) ≡ some respond
unfolding process_read c_string search_crlf poke find_space eq_no_case starts_no_case search_header
simple_get_parses = refl

-- A request that announces a body ends the process.
with_body_terminates : process_read no_request 20 (after_reading with_body) line_ok ≡ terminated
unfolding process_read c_string search_crlf poke find_space eq_no_case starts_no_case search_header
    leading_digits stoi
with_body_terminates = refl

process_read-enough_example :
    process_read no_request 5000 (after_reading simple_get) line_ok ≢ done none
process_read-enough_example =
    process_read-enough no_request 5000 (after_reading simple_get) line_ok (omega arith)

-- Every byte is above `k`.
abbrev pub above : ℕ → List ℕ → Bool
above k [] = true
above k (b ∷ bs) = ltb k b && above k bs

pub above-Plain : (bs : List ℕ) → above 13 bs ≡ true → All Plain bs
above-Plain [] e = tt
above-Plain (b ∷ bs) e = (
  record { not_nul = ground arith; not_cr = ground arith; not_lf = ground arith },
  above-Plain bs (ground arith),
)

pub above-Wordy : (bs : List ℕ) → above 32 bs ≡ true → All Wordy bs
above-Wordy [] e = tt
above-Wordy (b ∷ bs) e = (
  record { not_nul = ground arith; not_blank = ground arith; not_tab = ground arith },
  above-Wordy bs (ground arith),
)

-- A connection with a buffer that holds `bytes` and one NUL.
abbrev pub tight : List ℕ → HttpConn
tight bytes = record (after_reading []) { read_buf = bytes ++ 0 ∷ []; read_idx = length bytes }

abbrev one_line : HttpConn
one_line = tight (codes "Host: a" ++ crlf)

abbrev get_line : HttpConn
get_line = tight (codes "GET /a HTTP/1.1")

parse_request_line-accepts_example :
    parse_request_line no_request get_line 0
    ≡ done (
      record get_line {
        read_buf = codes "GET" ++ 0 ∷ (codes "/a" ++ 0 ∷ (codes "HTTP/1.1" ++ 0 ∷ []));
        method = get;
        url = some 4;
        version = some 7;
        check_status = header;
      },
      no_request,
    )
parse_request_line-accepts_example =
    parse_request_line-accepts no_request get_line [] (codes "GET") (codes "a") (codes "HTTP/1.1")
      [] refl (above-Wordy (codes "GET") refl) (above-Wordy (codes "a") refl)
      (above-Wordy (codes "HTTP/1.1") refl) (unfold eq_no_case in refl) (unfold eq_no_case in refl)

abbrev pub length_line : HttpConn
length_line = tight (codes "Content-Length: 3")

parse_head-content_length_example : parse_head length_line 0 ≡ terminated
parse_head-content_length_example =
    parse_head-content_length length_line 0 b'C' (codes "ontent-Length: 3")
      (unfold c_string in refl) (unfold search_header in refl) (unfold is_digit in refl)

abbrev reading : HttpConn
reading = tight (codes "ab" ++ 0 ∷ 0 ∷ 0 ∷ [])

abbrev read_two : HttpConn
read_two = record reading { read_idx = 2 }

read-chunks_example :
    read false read_two (received (codes "cd") ∷ received (codes "e") ∷ [])
    ≡ done (record read_two { read_buf = codes "abcde" ++ 0 ∷ []; read_idx = 5 }, true)
read-chunks_example =
    read-chunks false read_two (codes "cd" ∷ codes "e" ∷ []) (codes "ab") (0 ∷ 0 ∷ 0 ∷ 0 ∷ []) refl
      refl (omega arith)
      (
        record { some_there = omega arith; few = omega arith },
        (record { some_there = omega arith; few = omega arith }, tt),
      )
      (omega arith)

-- A request of 200 bytes at once.
abbrev long_chunk : List ℕ
long_chunk = replicate 200 b'x'

read-wide_example : read false (after_reading []) (received long_chunk ∷ []) ≡ undefined
read-wide_example =
    read-wide false (after_reading []) long_chunk [] (replicate read_buffer_size 0) refl refl
      (omega arith) (omega arith) (omega arith) (omega arith)
