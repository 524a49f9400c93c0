-- ===== src/Http/Response/Pieces.antt =====
-- What the `Add_` functions of webserver/src/http_conn.cpp write, piece by piece.
use mathlib.Core.List.{append_assoc}
use my_tcp_cs.Base.{
  ℕ, zero, suc, ◌+◌, ◌-◌, ◌%◌, ◌/◌, ◌^◌, ◌≤◌, ◌<◌, ◌≡◌, refl, ap, Bool, true, false, List, [], ◌∷◌,
  ◌++◌, done, undefined, arith, length, length-append, decimal, digits_onto,
}
use my_tcp_cs.Http.Types.{HttpConn, write_buffer_size}
use my_tcp_cs.Http.Respond.{
  add_response, crlf, int_text, status_line, length_line, type_line, linger_line, add_status_line,
  add_headers, add_content, send_buffer, error_page,
}

length-digits_onto :
    (fuel n : ℕ) (acc : List ℕ) → length (digits_onto fuel n acc) ≤ suc fuel + length acc
unfolding digits_onto
length-digits_onto zero n acc = omega arith
length-digits_onto (suc fuel) n acc =
    ground (arith, length-digits_onto fuel (n / 10) ((b'0' + n % 10) ∷ acc))

pub length-int_text : (n : ℕ) → length (int_text n) ≤ 11
unfolding int_text decimal
length-int_text n =
    ground
      (arith, length-digits_onto 9 (n % 2 ^ 32) [], length-digits_onto 9 (2 ^ 32 - n % 2 ^ 32) [])

-- With room for the text and its NUL, `Add_Response` puts the text behind what is there.
pub add_response-append :
    (c : HttpConn) (text : List ℕ)
    → length c.write_buf + length text < write_buffer_size
    → add_response c text ≡ done (record c { write_buf = c.write_buf ++ text }, true)
unfolding add_response
add_response-append c text room = ground arith

-- Once something is written, a text that does not fit is never refused: `vsnprintf` has run over
-- the end of the buffer before the check.
pub add_response-overflow :
    (c : HttpConn) (text : List ℕ)
    → 0 < length c.write_buf
    → length c.write_buf < write_buffer_size
    → write_buffer_size ≤ length c.write_buf + length text
    → add_response c text ≡ undefined
unfolding add_response
add_response-overflow c text some_there not_full no_room = ground arith

abbrev pub with_text : HttpConn → List ℕ → HttpConn
with_text c t = record c { write_buf = t }

length-status_line :
    (status : ℕ) (title : List ℕ) → length (status_line status title) ≤ 23 + length title
unfolding status_line
length-status_line status title = simp length-append (omega (arith, length-int_text status))

length-length_line : (n : ℕ) → length (length_line n) ≤ 29
unfolding length_line
length-length_line n = simp length-append (omega (arith, length-int_text n))

length-type_line : length type_line ≤ 25
unfolding type_line
length-type_line = omega arith

length-linger_line : (b : Bool) → length (linger_line b) ≤ 24
unfolding linger_line
length-linger_line true = omega arith
length-linger_line false = omega arith

-- The header lines and the blank one.
abbrev pub header_lines : (linger : Bool) → (len : ℕ) → List ℕ
header_lines linger len = length_line len ++ type_line ++ linger_line linger ++ crlf

-- The whole of an answer: status line, header lines, blank line and body.
abbrev pub message : (status : ℕ) → (title : List ℕ) → (linger : Bool) → (body : List ℕ) → List ℕ
message status title linger body =
    status_line status title ++ header_lines linger (length body) ++ body

length-header_lines : (linger : Bool) (n : ℕ) → length (header_lines linger n) ≤ 80
length-header_lines linger n =
    simp length-append
      (omega (arith, length-length_line n, length-type_line, length-linger_line linger))

add_headers_lem :
    (stray : Bool) (c : HttpConn) (n : ℕ)
    → length c.write_buf + 80 < write_buffer_size
    → add_headers stray c n ≡ done (with_text c (c.write_buf ++ header_lines c.linger n), stray)
unfolding add_headers
add_headers_lem stray c n room =
    let l = length_line n in
    let t = type_line in
    let g = linger_line c.linger in
    let w = c.write_buf in
    rw
      (
        add_response-append c l (omega (arith, length-length_line n)),
        add_response-append (with_text c (w ++ l)) t
            (omega (arith, length-length_line n, length-type_line, length-append w l)),
        add_response-append (with_text c ((w ++ l) ++ t)) g (
            omega (
              arith,
              length-length_line n,
              length-type_line,
              length-linger_line c.linger,
              length-append w l,
              length-append (w ++ l) t,
            )),
        add_response-append (with_text c (((w ++ l) ++ t) ++ g)) crlf (
            omega (
              arith,
              length-length_line n,
              length-type_line,
              length-linger_line c.linger,
              length-append w l,
              length-append (w ++ l) t,
              length-append ((w ++ l) ++ t) g,
            )),
      )
      (ap (λ u. done (with_text c u, stray)) (simp append_assoc))

module _ (c : HttpConn) (status : ℕ) (title : List ℕ) (room : length title < 100) where
  pub add_status_line_lem :
      add_status_line (with_text c []) status title
      ≡ done (with_text c (status_line status title), true)
  unfolding add_status_line
  add_status_line_lem =
      add_response-append (with_text c []) (status_line status title)
        (omega (arith, length-status_line status title))

  pub add_page_headers :
      (stray : Bool) (len : ℕ)
      → add_headers stray (with_text c (status_line status title)) len
        ≡ done (with_text c (status_line status title ++ header_lines c.linger len), stray)
  add_page_headers stray len =
      add_headers_lem stray (with_text c (status_line status title)) len
        (omega (arith, length-status_line status title))

  pub error_page_lem :
      (form : List ℕ)
      → length form < 1000
      → error_page true (with_text c []) status title form
        ≡ done (send_buffer (with_text c (message status title c.linger form)), true)
  unfolding error_page add_content
  error_page_lem form short =
      rw
        (
          add_status_line_lem,
          add_page_headers true (length form),
          add_response-append
              (with_text c (status_line status title ++ header_lines c.linger (length form))) form
              (omega (
                arith,
                length-status_line status title,
                length-header_lines c.linger (length form),
                length-append (status_line status title) (header_lines c.linger (length form)),
              )),
        )
        refl

  -- `Add_Headers` returning false, which it may, ends `Process_Write` in front of the page.
  pub error_page_stray :
      (form : List ℕ)
      → (d : HttpConn) × (error_page false (with_text c []) status title form ≡ done (d, false))
  unfolding error_page
  error_page_stray form = (
    with_text c (status_line status title ++ header_lines c.linger (length form)),
    rw (add_status_line_lem, add_page_headers false (length form)) refl,
  )
