-- ===== src/Http/Response.antt =====
-- The answers that `Process_Write` of webserver/src/http_conn.cpp puts together.
pub mod Pieces
pub mod Flag
use mathlib.Core.List.{append_assoc}
use mathlib.Core.Option.{some-injective}
use my_tcp_cs.Base.{
  ℕ, zero, suc, ◌+◌, ◌-◌, ◌%◌, ◌/◌, ◌^◌, ◌≤◌, ◌<◌, ◌≡◌, refl, sym, ap, subst, ◌∙◌, Bool, true,
  false, Option, none, some, List, [], ◌∷◌, ◌++◌, Outcome, done, undefined, if◌then◌else◌, arith,
  length, length-append, take-length, codes, decimal, digits_onto, Option-cases, inl, inr,
}
use my_tcp_cs.Base.Int.{int_of, int_of-small}
use my_tcp_cs.Http.Types.{
  HttpConn, buffer_at, file_at, write_buffer_size, HttpCode, no_request, get_request, bad_request,
  no_resource, forbidden_request, file_request, internal_error, closed_connection,
}
use my_tcp_cs.Http.Transfer.{offered}
use my_tcp_cs.Http.Respond.{
  add_response, crlf, int_text, status_line, length_line, type_line, linger_line, add_status_line,
  add_headers, add_content, send_buffer, error_page, file_page, process_write, title_400, form_400,
  title_404, form_403, form_404, title_500, form_500,
}
use my_tcp_cs.Http.Response.Pieces.{
  with_text, header_lines, message, add_status_line_lem, add_page_headers, error_page_lem,
  error_page_stray,
}

abbrev pub file_text : (linger : Bool) → Option (List ℕ) → Option (List ℕ)
file_text linger none = none
file_text linger (some bytes) = some (message 200 (codes "OK") linger bytes)

-- The page that answers a code, and `none` where the code has none.
abbrev pub answer_text : HttpConn → HttpCode → Option (List ℕ)
answer_text c internal_error = some (message 500 title_500 c.linger form_500)
answer_text c bad_request = some (message 400 title_400 c.linger form_400)
answer_text c no_resource = some (message 404 title_404 c.linger form_404)
answer_text c forbidden_request = some (message 403 title_404 c.linger form_403)
answer_text c file_request = file_text c.linger c.file_address
answer_text c _ = none

-- What an answer leaves: the whole message is offered to the next `writev`, and counted in an
-- `int`.
abbrev pub Offers : List ℕ → HttpConn × Bool → Type 0
Offers m (d, ok) = (ok ≡ true) × (offered d ≡ m) × (d.bytes_to_send ≡ int_of (length m))

Offers-send_buffer : (c : HttpConn) (m : List ℕ) → Offers m (send_buffer (with_text c m), true)
unfolding send_buffer offered
Offers-send_buffer c m = (refl, take-length m, refl)

-- A connection with the header `h` written and the file to follow.
file_ready : HttpConn → (h : List ℕ) → HttpConn
file_ready c h = record (with_text c h) {
  iv0 = record { base = buffer_at 0; len = length h };
  iv1 = record { base = file_at 0; len = c.real_file_stat.size };
  iv_count = 2;
  bytes_to_send = int_of (length h + c.real_file_stat.size);
}

Offers-file_ready :
    (c : HttpConn) (h bytes : List ℕ)
    → c.file_address ≡ some bytes
    → c.real_file_stat.size ≡ length bytes
    → Offers (h ++ bytes) (file_ready c h, true)
unfolding file_ready offered
Offers-file_ready c h bytes mapped size = (
  refl,
  rw (mapped, size, take-length h, take-length bytes) refl,
  rw (size, length-append h bytes) refl,
)

file_page_lem :
    (c : HttpConn) (stray : Bool)
    → let h = status_line 200 (codes "OK") ++ header_lines c.linger c.real_file_stat.size in
      file_page stray (with_text c [])
      ≡ done (if stray then (file_ready c h, true) else (with_text c h, false))
unfolding file_page file_ready
file_page_lem c true =
    rw
      (
        add_status_line_lem c 200 (codes "OK") (omega arith),
        add_page_headers c 200 (codes "OK") (omega arith) true c.real_file_stat.size,
      )
      refl
file_page_lem c false =
    rw
      (
        add_status_line_lem c 200 (codes "OK") (omega arith),
        add_page_headers c 200 (codes "OK") (omega arith) false c.real_file_stat.size,
      )
      refl

-- An outcome with the answer `m` ready to be sent.
abbrev pub Answers : List ℕ → Outcome (HttpConn × Bool) → Type 0
Answers m r = (d : HttpConn) × (r ≡ done (d, true)) × Offers m (d, true)

error_page-Answers :
    (c : HttpConn) (status : ℕ) (title form m : List ℕ)
    → length title < 100
    → length form < 1000
    → some (message status title c.linger form) ≡ some m
    → Answers m (error_page true (with_text c []) status title form)
error_page-Answers c status title form m room short e =
    let text = message status title c.linger form in
    subst (λ k. Answers k (error_page true (with_text c []) status title form))
      (some-injective _ _ e)
      (
        send_buffer (with_text c text),
        error_page_lem c status title room form short,
        Offers-send_buffer c text,
      )

file_page-Answers :
    (c : HttpConn) (bytes m : List ℕ)
    → c.file_address ≡ some bytes
    → c.real_file_stat.size ≡ length bytes
    → file_text c.linger (some bytes) ≡ some m
    → Answers m (file_page true (with_text c []))
file_page-Answers c bytes m mapped size e =
    let h = status_line 200 (codes "OK") ++ header_lines c.linger c.real_file_stat.size in
    let same : h ++ bytes ≡ m = rw size (some-injective _ _ e) in
    (
      file_ready c h,
      file_page_lem c true,
      subst (λ k. Offers k (file_ready c h, true)) same (Offers-file_ready c h bytes mapped size),
    )

-- The answer to a code from an empty write buffer.
process_write_empty :
    (c : HttpConn) (code : HttpCode) (m : List ℕ)
    → answer_text c code ≡ some m
    → ((bytes : List ℕ) → c.file_address ≡ some bytes → c.real_file_stat.size ≡ length bytes)
    → Answers m (process_write true (with_text c []) code)
unfolding process_write
process_write_empty c internal_error m e size =
    error_page-Answers c 500 title_500 form_500 m (omega arith) (omega arith) e
process_write_empty c bad_request m e size =
    error_page-Answers c 400 title_400 form_400 m (omega arith) (omega arith) e
process_write_empty c no_resource m e size =
    error_page-Answers c 404 title_404 form_404 m (omega arith) (omega arith) e
process_write_empty c forbidden_request m e size =
    error_page-Answers c 403 title_404 form_403 m (omega arith) (omega arith) e
process_write_empty c file_request m e size = elim (Option-cases c.file_address) [
  | inl missing ↦ cc (ap (file_text c.linger) missing)
  | inr (bytes, mapped) ↦
      file_page-Answers c bytes m mapped (size bytes mapped)
        (ap (file_text c.linger) (sym mapped) ∙ e)
]
process_write_empty c no_request m e size = cc
process_write_empty c get_request m e size = cc
process_write_empty c closed_connection m e size = cc

-- Where `Add_Headers` happens to return true, and the write buffer is empty, `Process_Write` offers
-- the answer that the code calls for, status line, header lines, blank line and body, to `writev`,
-- and counts all its bytes, if they are fewer than 2 ^ 31. For a file the size on record must be
-- that of the mapping.
pub process_write-Answers :
    (c : HttpConn) (code : HttpCode) (m : List ℕ)
    → c.write_buf ≡ []
    → answer_text c code ≡ some m
    → ((bytes : List ℕ) → c.file_address ≡ some bytes → c.real_file_stat.size ≡ length bytes)
    → length m < 2 ^ 31
    → (d : HttpConn) × (process_write true c code ≡ done (d, true))
      × (offered d ≡ m)
      × (d.bytes_to_send ≡ length m)
process_write-Answers c code m empty e size fits =
    let (d, built, (_, offers, count)) =
      subst (λ t. Answers m (process_write true (with_text c t) code)) (sym empty)
        (process_write_empty c code m e size) in
    (d, built, offers, count ∙ int_of-small (length m) fits)

process_write_stray :
    (c : HttpConn) (code : HttpCode)
    → (d : HttpConn) × (process_write false (with_text c []) code ≡ done (d, false))
unfolding process_write
process_write_stray c internal_error = error_page_stray c 500 title_500 (omega arith) form_500
process_write_stray c bad_request = error_page_stray c 400 title_400 (omega arith) form_400
process_write_stray c no_resource = error_page_stray c 404 title_404 (omega arith) form_404
process_write_stray c forbidden_request = error_page_stray c 403 title_404 (omega arith) form_403
process_write_stray c file_request = (_, file_page_lem c false)
process_write_stray c no_request = (with_text c [], refl)
process_write_stray c get_request = (with_text c [], refl)
process_write_stray c closed_connection = (with_text c [], refl)

-- `Add_Headers` has no `return`. Where it happens to return false, and the write buffer is empty,
-- `Process_Write` fails for every code, without touching memory out of bounds.
pub process_write-stray :
    (c : HttpConn) (code : HttpCode)
    → c.write_buf ≡ []
    → (d : HttpConn) × (process_write false c code ≡ done (d, false))
process_write-stray c code empty =
    subst (λ t. (d : HttpConn) × (process_write false (with_text c t) code ≡ done (d, false)))
      (sym empty) (process_write_stray c code)
