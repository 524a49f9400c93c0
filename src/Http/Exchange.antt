-- ===== src/Http/Exchange.antt =====
-- From the result of parsing to the bytes on the socket: `Process_Write` and then `Write` of
-- webserver/src/http_conn.cpp.
use my_tcp_cs.Base.{ℕ, ◌^◌, Bool, ◌<◌, ◌≡◌, true, some, List, [], ◌∷◌, done, length}
use my_tcp_cs.Http.Types.{HttpConn, HttpCode}
use my_tcp_cs.Http.Respond.{process_write}
use my_tcp_cs.Http.Transfer.{Writev, wrote, for_input, write}
use my_tcp_cs.Http.Response.{answer_text, process_write-Answers}
use my_tcp_cs.Http.Sending.{write-whole}

-- Where `Add_Headers` happens to return true, the write buffer is empty, and the kernel takes the
-- whole answer in the first `writev`, exactly the answer that the code calls for goes out, status
-- line, header lines, blank line and body; the descriptor then waits for input, and `Write` keeps
-- the connection that `Process_Write` leaves if and only if its keep-alive flag is set. The answer
-- must have fewer than 2 ^ 31 bytes, and for a file the size on record must be that of the mapping.
pub process_write-write :
    (c : HttpConn) (code : HttpCode) (m : List ℕ) (eagain : Bool) (rs : List Writev)
    → c.write_buf ≡ []
    → answer_text c code ≡ some m
    → 0 < length m
    → length m < 2 ^ 31
    → ((bytes : List ℕ) → c.file_address ≡ some bytes → c.real_file_stat.size ≡ length bytes)
    → (d : HttpConn) × (process_write true c code ≡ done (d, true))
      × (let w = write eagain d (wrote (length m) ∷ rs) in
          (w.output ≡ m) × (w.result ≡ d.linger) × (w.rearm ≡ for_input))
process_write-write c code m eagain rs empty e some_there fits size =
    let (d, built, offers, count) = process_write-Answers c code m empty e size fits in
    (d, built, write-whole eagain d m rs offers count some_there fits)
