-- ===== src/Http/Request.antt =====
-- A whole request in the read buffer, through `Process_Read` of webserver/src/http_conn.cpp.
use mathlib.Core.List.{append_assoc}
use my_tcp_cs.Base.{
  ℕ, zero, suc, ◌+◌, ◌<◌, ◌≡◌, ◌≢◌, refl, ◌∙◌, ap, true, false, ◌||◌, some, List, [], ◌∷◌, ◌++◌,
  done, length, All, length-append, cr, lf, blank, codes, arith,
}
use my_tcp_cs.Http.CStrings.{until_nul, c_string, eq_no_case}
use my_tcp_cs.Http.Types.{
  HttpConn, line_ok, HttpCode, no_request, get_request, bad_request, no_resource, forbidden_request,
  file_request, internal_error, closed_connection, CheckState, header, request_line, get,
}
use my_tcp_cs.Http.Parse.{
  parse_line, parse_request_line, Next, again, answer, respond, process_line, next_line,
  process_read,
}
use my_tcp_cs.Http.Lines.{Plain, bind-done, parse_line-crlf}
use my_tcp_cs.Http.RequestLine.{parse_request_line-accepts}
use my_tcp_cs.Http.RequestLine.Words.{Wordy, c_string-pre, until_nul-end}
use my_tcp_cs.Http.Headers.{
  fields_text, IsField, any_keeps, until_nul-fields_text, process_read-line, process_read-headers,
}

-- A GET request without a body: its words and its header lines.
pub record Request : Type 0 where
  pub method : List ℕ
  pub path : List ℕ
  pub version : List ℕ
  pub fields : List (List ℕ)

-- The target, which begins with a slash.
abbrev pub target_of : Request → List ℕ
target_of r = b'/' ∷ r.path

abbrev pub first_line : Request → List ℕ
first_line r = r.method ++ blank ∷ (target_of r ++ blank ∷ r.version)

-- The request as a client sends it, and what stands behind it in the buffer.
abbrev pub request_text : Request → (tail : List ℕ) → List ℕ
request_text r tail = first_line r ++ cr ∷ lf ∷ fields_text r.fields tail

-- The requests that the server understands.
pub record IsRequest (r : Request) : Type 0 where
  pub method_word : All Wordy r.method
  pub path_word : All Wordy r.path
  pub version_word : All Wordy r.version
  pub plain : All Plain (first_line r)
  pub is_get : eq_no_case r.method (codes "GET") ≡ true
  pub known : eq_no_case r.version (codes "HTTP/1.1") ≡ true
  pub no_body : All IsField r.fields

-- A connection after `Init` and `Read`, with `text` in its buffer.
pub record HasRead (c : HttpConn) (text : List ℕ) : Type 0 where
  pub read_buf : c.read_buf ≡ text
  pub checked_idx : c.checked_idx ≡ 0
  pub start_of_line : c.start_of_line ≡ 0
  pub check_status : c.check_status ≡ request_line
  pub content_length : c.content_length ≡ 0
  pub linger : c.linger ≡ false

-- What the parser knows of a request at its end: the target stands in the buffer at `m_url_`, and
-- the keep-alive flag is set exactly if some header line asks for it.
pub record Parsed (c c' : HttpConn) (r : Request) : Type 0 where
  pub at : ℕ
  pub url : c'.url ≡ some at
  pub target : c_string c'.read_buf at ≡ done (target_of r)
  pub linger : c'.linger ≡ any_keeps r.fields
  pub real_file : c'.real_file ≡ c.real_file
  pub write_buf : c'.write_buf ≡ c.write_buf

next_line-first :
    (c : HttpConn)
    → c.check_status ≡ request_line
    → next_line c line_ok c.check_status ≡ parse_line c
unfolding next_line
next_line-first c e = ap (next_line c line_ok) e

process_line-first :
    (stray : HttpCode) (c c' : HttpConn) (text : ℕ) (s : CheckState)
    → s ≡ request_line
    → stray ≢ bad_request
    → parse_request_line stray c text ≡ done (c', stray)
    → process_line stray c text s ≡ done (c', again line_ok)
unfolding process_line
process_line-first stray c c' text s e other f =
    ap (process_line stray c text) e ∙ bind-done _ f ∙ on_stray stray other
  where
    on_stray :
        (code : HttpCode)
        → code ≢ bad_request
        → done (elim code as (λ x. HttpConn × Next) [
          | bad_request ↦ (c', answer bad_request)
          | _ ↦ (c', again line_ok)
        ])
          ≡ done (c', again line_ok)
    on_stray bad_request other = absurd (other refl)
    on_stray no_request other = refl
    on_stray get_request other = refl
    on_stray no_resource other = refl
    on_stray forbidden_request other = refl
    on_stray file_request other = refl
    on_stray internal_error other = refl
    on_stray closed_connection other = refl

-- The request line with its separators made NULs.
abbrev cut_line : Request → List ℕ
cut_line r = r.method ++ 0 ∷ (target_of r ++ 0 ∷ (r.version ++ 0 ∷ 0 ∷ []))

cut_line-append :
    (r : Request) (rest : List ℕ)
    → r.method ++ 0 ∷ (target_of r ++ 0 ∷ (r.version ++ 0 ∷ 0 ∷ rest)) ≡ cut_line r ++ rest
cut_line-append r rest = simp append_assoc

length-cut_line : (r : Request) → length (cut_line r) ≡ length (first_line r) + 2
length-cut_line r = omega (
  arith,
  length-append r.method (0 ∷ (target_of r ++ 0 ∷ (r.version ++ 0 ∷ 0 ∷ []))),
  length-append r.path (0 ∷ (r.version ++ 0 ∷ 0 ∷ [])),
  length-append r.version (0 ∷ 0 ∷ []),
  length-append r.method (blank ∷ (target_of r ++ blank ∷ r.version)),
  length-append r.path (blank ∷ r.version),
)

slash : Wordy b'/'
slash = record { not_nul = omega arith; not_blank = omega arith; not_tab = omega arith }

-- The target in the buffer, whatever stands behind the request line.
c_string-target :
    (r : Request) (behind : List ℕ)
    → All Wordy r.path
    → c_string (cut_line r ++ behind) (0 + length r.method + 1) ≡ done (target_of r)
c_string-target r behind word =
    let x = (r.version ++ 0 ∷ 0 ∷ []) ++ behind in
    let split : cut_line r ++ behind ≡ (r.method ++ 0 ∷ []) ++ (target_of r ++ 0 ∷ x) =
      simp append_assoc in
    rw split (
      c_string-pre (r.method ++ 0 ∷ []) (target_of r ++ 0 ∷ x) (target_of r) _
        (omega (arith, length-append r.method (0 ∷ [])))
        (until_nul-end (target_of r) x (slash, word)))

-- `Process_Read` takes any request of the kind that the server understands apart, however many
-- header lines it has: it goes on to answer, knows the target, and knows whether to keep the
-- connection. This needs the value that `Parse_Request_Line` leaves in the return register not to
-- be BAD_REQUEST.
pub process_read-request :
    (stray : HttpCode) (fuel : ℕ) (c : HttpConn) (r : Request) (tail t : List ℕ)
    → stray ≢ bad_request
    → IsRequest r
    → HasRead c (request_text r tail)
    → until_nul tail ≡ done t
    → length r.fields + 1 < fuel
    → (c' : HttpConn) × (process_read stray fuel c line_ok ≡ done (some (c', respond)))
      × Parsed c c' r
process_read-request stray zero c r tail t other q has ends room = absurd (omega (arith, room))
process_read-request stray (suc fuel) c r tail t other q has ends room =
    let line0 = first_line r in
    let rest = fields_text r.fields tail in
    let c₁ : HttpConn = record c {
      read_buf = line0 ++ 0 ∷ 0 ∷ rest;
      checked_idx = 0 + length line0 + 2;
    } in
    let c₂ : HttpConn = record c₁ { start_of_line = c₁.checked_idx } in
    let line =
      next_line-first c has.check_status
      ∙ parse_line-crlf c [] line0 rest (fields_text r.fields t) has.read_buf has.checked_idx
          q.plain (until_nul-fields_text r.fields tail t q.no_body ends) in
    let buf : line0 ++ 0 ∷ 0 ∷ rest
        ≡ r.method ++ blank ∷ (target_of r ++ blank ∷ (r.version ++ 0 ∷ 0 ∷ rest)) =
      simp append_assoc in
    let u = 0 + length r.method + 1 in
    let c₃ : HttpConn = record c₂ {
      read_buf = r.method ++ 0 ∷ (target_of r ++ 0 ∷ (r.version ++ 0 ∷ 0 ∷ rest));
      method = get;
      url = some u;
      version = some (u + length (target_of r) + 1);
      check_status = header;
    } in
    let words : parse_request_line stray c₂ c.start_of_line ≡ done (c₃, stray) =
      ap (parse_request_line stray c₂) has.start_of_line
      ∙ parse_request_line-accepts stray c₂ [] r.method r.path r.version (0 ∷ rest) buf
          q.method_word q.path_word q.version_word q.is_get q.known in
    let count : 0 + length line0 + 2 ≡ length (cut_line r) = omega (arith, length-cut_line r) in
    let (c', read_rest, h) =
      process_read-headers stray fuel c₃ (cut_line r) r.fields tail t
        (record {
          read_buf = cut_line-append r rest;
          checked_idx = count;
          start_of_line = count;
          check_status = refl;
          content_length = has.content_length;
        })
        q.no_body ends (omega (arith, room)) in
    (
      c',
      process_read-line stray fuel c c₁ _ line (
            process_line-first stray c₂ c₃ c.start_of_line c.check_status has.check_status other
              words)
          ∙ read_rest,
      record {
        at = u;
        url = h.url;
        target = rw h.read_buf (c_string-target r h.behind q.path_word);
        linger = h.linger ∙ ap (λ l. l || any_keeps r.fields) has.linger;
        real_file = h.real_file;
        write_buf = h.write_buf;
      },
    )
