-- ===== src/Http/Answering.antt =====
-- A request answered from beginning to end: `Process_Read` with `Do_Response`, `Process_Write` and
-- `Write` of webserver/src/http_conn.cpp.
use my_tcp_cs.Base.{
  ℕ, false, ◌+◌, ◌-◌, ◌<◌, ◌≡◌, ◌≢◌, ◌∙◌, ap, true, false, some, List, [], ◌∷◌, done, length, drop,
}
use my_tcp_cs.Http.CStrings.{until_nul}
use my_tcp_cs.Http.Types.{HttpConn, Stat, HttpCode, bad_request, filename_len}
use my_tcp_cs.Http.Respond.{Files, process_request, target_path}
use my_tcp_cs.Http.Lines.{bind-done}
use my_tcp_cs.Http.Target.{path_of, response_at, do_response-path}
use my_tcp_cs.Http.Request.{
  Request, target_of, request_text, IsRequest, HasRead, process_read-request,
}
use my_tcp_cs.Http.Headers.{any_keeps}

-- A request that the server understands is answered by what stands at the path of its target, and
-- by nothing else: the code and the file are those that the checks on that path give. The
-- keep-alive flag is set exactly if some header line asks for it, and the write buffer is as it
-- was.
pub process_request-request :
    (fs : Files) (stray : HttpCode) (fuel : ℕ) (c : HttpConn) (r : Request) (tail t : List ℕ)
    → stray ≢ bad_request
    → IsRequest r
    → HasRead c (request_text r tail)
    → until_nul tail ≡ done t
    → drop (filename_len - 1) c.real_file ≡ 0 ∷ []
    → length r.fields + 1 < fuel
    → (c' : HttpConn) × (process_request fs stray fuel c
        ≡ done (some (response_at fs c' (path_of (target_of r)))))
      × (c'.linger ≡ any_keeps r.fields)
      × (c'.write_buf ≡ c.write_buf)
unfolding process_request
process_request-request fs stray fuel c r tail t other q has ends last room =
    let (c₁, parsed, p) = process_read-request stray fuel c r tail t other q has ends room in
    let found =
      do_response-path fs c₁ p.at (target_of r) p.url p.target
        (ap (λ f. drop (filename_len - 1) f) p.real_file ∙ last) in
    (
      record c₁ { real_file = target_path c₁ (target_of r) },
      bind-done _ parsed ∙ bind-done _ found,
      p.linger,
      p.write_buf,
    )

-- A file that the server serves stands at the path, with `bytes` in it, and `mmap` maps all of
-- them.
pub record Serves (fs : Files) (path bytes : List ℕ) : Type 0 where
  pub found : Stat
  pub stat : fs.stat path ≡ some found
  pub readable : found.others_read ≡ true
  pub a_file : found.is_dir ≡ false
  pub opens : fs.can_open path ≡ true
  pub mapped : fs.mmap path ≡ some bytes
  pub whole : found.size ≡ length bytes
