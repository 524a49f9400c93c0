-- ===== src/Tests/Answers.antt =====
-- The theorems on answers at small files and error pages.
use my_tcp_cs.Base.{
  length-append, decimal, Bool, none, ◌++◌, ◌^◌, ◌==◌, if◌then◌else◌, length, ℕ, ◌<◌, ◌≡◌, refl,
  true, false, some, List, [], ◌∷◌, codes, done, arith,
}
use my_tcp_cs.Http.Types.{HttpConn, buffer_at, file_at, no_resource}
use my_tcp_cs.Http.Exchange.{process_write-write}
use my_tcp_cs.Http.CStrings.{c_string}
use my_tcp_cs.Http.Target.{response_at, path_of, do_response-path}
use my_tcp_cs.Http.Respond.{
  Files, status_line, int_text, length_line, type_line, linger_line, target_path, do_response,
  process_write, title_404, form_404,
}
use my_tcp_cs.Http.Transfer.{offered, sent, write, wrote, for_input}
use my_tcp_cs.Http.Response.Pieces.{message}
use my_tcp_cs.Http.Response.{process_write-Answers}
use my_tcp_cs.Http.Sending.{IsFileAnswer, sent-lost}
use my_tcp_cs.Http.Sending.Resuming.{write-resumed}
use my_tcp_cs.Tests.Requests.{after_reading}

abbrev pub asked : HttpConn
asked = after_reading (codes "GET")

abbrev not_found_page : List ℕ
not_found_page = message 404 title_404 false form_404

not_found_page-fits : length not_found_page < 2 ^ 31
unfolding status_line int_text decimal length_line type_line linger_line
not_found_page-fits = omega arith

process_write-Answers_example :
    (d : HttpConn) × (process_write true asked no_resource ≡ done (d, true))
    × (offered d ≡ not_found_page)
    × (d.bytes_to_send ≡ length not_found_page)
process_write-Answers_example =
    process_write-Answers asked no_resource not_found_page refl refl (λ bytes e. cc)
      not_found_page-fits

abbrev pub page : List ℕ
page = codes "hello"

pub page-fits : (linger : Bool) → length (message 200 (codes "OK") linger page) < 2 ^ 31
unfolding status_line int_text decimal length_line type_line linger_line
page-fits true = omega arith
page-fits false = omega arith

abbrev head_text : List ℕ
head_text = codes "HDR"

-- A file answer with the header "HDR" and the file "hello"; the request was 4 bytes long.
abbrev answering : HttpConn
answering = record asked {
  write_buf = head_text;
  file_address = some page;
  iv_count = 2;
  iv0 = record { base = buffer_at 0; len = 3 };
  iv1 = record { base = file_at 0; len = 5 };
  bytes_to_send = 8;
  read_idx = 4;
}

answering-IsFileAnswer : IsFileAnswer answering head_text page
answering-IsFileAnswer = record {
  header = refl;
  mapping = refl;
  two = refl;
  first = refl;
  second = refl;
  none_sent = refl;
  all_left = refl;
}

-- 5 bytes are taken first: the header and "he". Then "ell" follows in place of "llo".
write-resumed_example :
    let w = write false answering (wrote 5 ∷ wrote 3 ∷ []) in
    (w.output ≡ codes "HDRhe" ++ codes "ell")
    × (length w.output ≡ 8)
    × (w.result ≡ answering.linger)
    × (w.rearm ≡ for_input)
write-resumed_example =
    write-resumed false answering head_text page 5 [] answering-IsFileAnswer (omega arith)
      (omega arith) (omega arith) (omega arith) (omega arith)

-- An error page of 10 bytes, of which 4 and then 3 are taken.
abbrev short_page : HttpConn
short_page = record asked {
  write_buf = codes "0123456789";
  iv_count = 1;
  iv0 = record { base = buffer_at 0; len = 10 };
  bytes_to_send = 10;
}

sent-lost_example :
    (offered (sent (sent short_page 4) 3) ≡ []) × (0 < (sent (sent short_page 4) 3).bytes_to_send)
sent-lost_example =
    sent-lost short_page 4 3 refl refl refl (omega arith) (omega arith) (omega arith) (omega arith)

-- One file, "/home/lj/lession/webserver/resources/a", that everyone may read.
abbrev pub one_file : Files
one_file = record {
  stat = λ path.
      if length path == 38
      then some (record { others_read = true; is_dir = false; size = 5 })
      else none;
  can_open = λ path. true;
  mmap = λ path. some page;
}

abbrev targeting : HttpConn
targeting = record (after_reading (codes "/a")) { url = some 0 }

do_response-path_example :
    do_response one_file targeting
    ≡ done (
        response_at one_file
          (record targeting { real_file = target_path targeting (codes "/a") })
          (path_of (codes "/a")))
do_response-path_example =
    do_response-path one_file targeting 0 (codes "/a") refl (unfold c_string in refl) refl

process_write-write_example :
    (d : HttpConn) × (process_write true asked no_resource ≡ done (d, true))
    × (let w = write false d (wrote (length not_found_page) ∷ []) in
        (w.output ≡ not_found_page) × (w.result ≡ d.linger) × (w.rearm ≡ for_input))
process_write-write_example =
    process_write-write asked no_resource not_found_page false [] refl refl
      (unfold status_line in omega (arith, length-append (status_line 404 title_404) []))
      not_found_page-fits (λ bytes e. cc)
