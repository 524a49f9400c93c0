-- ===== src/Http/Respond.antt =====
-- The answering half of webserver/src/http_conn.cpp: `Do_Response`, `Add_Response` and its
-- callers, `Process_Write`, `Unmap`, and `Process_Read` with its answer.
use my_tcp_cs.Base.{
  ℕ, ◌+◌, ◌-◌, ◌%◌, ◌^◌, min, Bool, true, false, not, Option, none, some, List, [], ◌∷◌, ◌++◌,
  Outcome, done, undefined, ◌>>=◌, ltb, leb, if◌then◌else◌, length, take, drop, replicate, codes,
  cr, lf, decimal,
}
use my_tcp_cs.Base.Int.{int_of}
use my_tcp_cs.Http.CStrings.{c_string, until_nul}
use my_tcp_cs.Http.Types.{
  HttpConn, Stat, buffer_at, file_at, line_ok, write_buffer_size, filename_len, doc_root, HttpCode,
  bad_request, no_resource, forbidden_request, file_request, internal_error,
}
use my_tcp_cs.Http.Parse.{again, answer, respond, process_read}

-- The file system, by paths: what `stat`, `open(…, O_RDONLY)` and `mmap` of the open file return.
pub record Files : Type 0 where
  pub stat : List ℕ → Option Stat
  pub can_open : List ℕ → Bool
  pub mmap : List ℕ → Option (List ℕ)

-- `strncpy`: at most `n` bytes of the C string, filled up with NULs.
unfoldable pub strncpy : ℕ → List ℕ → List ℕ
strncpy n s = take n s ++ replicate (n - length s) 0

-- The path in `m_real_file_` after `strcpy` and `strncpy`; its last byte is not written.
unfoldable pub target_path : HttpConn → (target : List ℕ) → List ℕ
unfolding strncpy
target_path c target =
    doc_root
    ++ strncpy (filename_len - length doc_root - 1) target
    ++ drop (filename_len - 1) c.real_file

-- The checks of `Do_Response` on a file that exists. MAP_FAILED, which a later `munmap` refuses, is
-- `none` like a null pointer.
unfoldable pub map_file : Files → HttpConn → (path : List ℕ) → Stat → HttpConn × HttpCode
map_file fs c path st =
    if not st.others_read
    then (c, forbidden_request)
    else if st.is_dir
    then (c, bad_request)
    else if not (fs.can_open path)
    then (c, no_resource)
    else elim (fs.mmap path) [
      | none ↦ (record c { file_address = none }, internal_error)
      | some bytes ↦ (record c { file_address = some bytes }, file_request)
    ]

-- `Do_Response()`
unfoldable pub do_response : Files → HttpConn → Outcome (HttpConn × HttpCode)
unfolding map_file target_path
do_response fs c = elim c.url [
  | none ↦ undefined
  | some u ↦ (do
    target ← c_string c.read_buf u
    let c₁ = record c { real_file = target_path c target }
    path ← until_nul c₁.real_file
    done (elim (fs.stat path) [
      | none ↦ (c₁, no_resource)
      | some st ↦ map_file fs (record c₁ { real_file_stat = st }) path st
    ]))
]

-- `Unmap()`
unfoldable pub unmap : HttpConn → HttpConn
unmap c = record c { file_address = none }

-- `Process_Read()`, `none` if the fuel ran out.
unfoldable pub process_request :
    Files → (stray : HttpCode) → ℕ → HttpConn → Outcome (Option (HttpConn × HttpCode))
process_request fs stray fuel c = do
  r ← process_read stray fuel c line_ok
  elim r [
    | none ↦ done none
    | some (c', next) ↦ elim next [
      | again _ ↦ done none
      | answer code ↦ done (some (c', code))
      | respond ↦ (do_response fs c' >>= λ a. done (some a))
    ]
  ]

-- `Add_Response`, given the formatted text. `vsnprintf` is told that WRITE_BUFFER_SIZE_ bytes are
-- free, wherever it starts to write, and the check on the room left comes after it.
unfoldable pub add_response : HttpConn → (text : List ℕ) → Outcome (HttpConn × Bool)
add_response c text =
    let at = length c.write_buf in
    if leb write_buffer_size at
    then done (c, false)
    else if ltb write_buffer_size (at + min (length text) (write_buffer_size - 1) + 1)
    then undefined
    else if leb (write_buffer_size - at) (length text)
    then done (c, false)
    else done (record c { write_buf = c.write_buf ++ text }, true)

abbrev pub crlf : List ℕ
crlf = cr ∷ lf ∷ []

-- `%d` of a number converted to `int`, 32 bits in two's complement.
unfoldable pub int_text : ℕ → List ℕ
int_text n = let w = n % 2 ^ 32 in if ltb w (2 ^ 31) then decimal w else b'-' ∷ decimal (2 ^ 32 - w)

-- "%s %d %s\r\n"
unfoldable pub status_line : (status : ℕ) → (title : List ℕ) → List ℕ
status_line status title = codes "HTTP/1.1 " ++ int_text status ++ codes " " ++ title ++ crlf

-- "Content-Length: %d\r\n"
unfoldable pub length_line : (content_len : ℕ) → List ℕ
length_line n = codes "Content-Length: " ++ int_text n ++ crlf

-- "Content-Type: %s\r\n"
unfoldable pub type_line : List ℕ
type_line = codes "Content-Type: text/html" ++ crlf

-- "Connection: %s\r\n"
unfoldable pub linger_line : Bool → List ℕ
linger_line linger =
    codes "Connection: " ++ (if linger then codes "keep-alive" else codes "close") ++ crlf

-- `Add_Status_Line`
unfoldable pub add_status_line :
    HttpConn → (status : ℕ) → (title : List ℕ) → Outcome (HttpConn × Bool)
add_status_line c status title = add_response c (status_line status title)

-- `Add_Head_ContentLength`
unfoldable pub add_head_content_length : HttpConn → (content_len : ℕ) → Outcome (HttpConn × Bool)
add_head_content_length c n = add_response c (length_line n)

-- `Add_Content_Type`
unfoldable pub add_content_type : HttpConn → Outcome (HttpConn × Bool)
add_content_type c = add_response c type_line

-- `Add_Linger`
unfoldable pub add_linger : HttpConn → Outcome (HttpConn × Bool)
add_linger c = add_response c (linger_line c.linger)

-- `Add_Blank_Line`
unfoldable pub add_blank_line : HttpConn → Outcome (HttpConn × Bool)
add_blank_line c = add_response c crlf

-- `Add_Content`
unfoldable pub add_content : HttpConn → (text : List ℕ) → Outcome (HttpConn × Bool)
add_content c text = add_response c text

-- `Add_Headers`: the results of its calls are dropped, and it has no `return`, so that its own
-- result is `stray`, whatever stands in the return register.
unfoldable pub add_headers :
    (stray : Bool) → HttpConn → (content_len : ℕ) → Outcome (HttpConn × Bool)
unfolding add_head_content_length add_content_type add_linger add_blank_line
add_headers stray c n = do
  (c₁, _) ← add_head_content_length c n
  (c₂, _) ← add_content_type c₁
  (c₃, _) ← add_linger c₂
  (c₄, _) ← add_blank_line c₃
  done (c₄, stray)

-- The end of `Process_Write` for an answer without a file.
unfoldable pub send_buffer : HttpConn → HttpConn
send_buffer c = record c {
  iv0 = record { base = buffer_at 0; len = length c.write_buf };
  iv_count = 1;
  bytes_to_send = int_of (length c.write_buf);
}

-- A case of `Process_Write` that answers with a page of its own.
unfoldable pub error_page :
    (stray : Bool) → HttpConn → (status : ℕ) → (title form : List ℕ) → Outcome (HttpConn × Bool)
unfolding add_status_line add_headers add_content send_buffer
error_page stray c status title form = do
  (c₁, ok₁) ← add_status_line c status title
  if not ok₁ then done (c₁, false) else (do
    (c₂, ok₂) ← add_headers stray c₁ (length form)
    if not ok₂ then done (c₂, false) else (do
      (c₃, ok₃) ← add_content c₂ form
      if not ok₃ then done (c₃, false) else done (send_buffer c₃, true)))

-- The case FILE_REQUEST of `Process_Write`. The sum is stored in an `int`.
unfoldable pub file_page : (stray : Bool) → HttpConn → Outcome (HttpConn × Bool)
unfolding add_status_line add_headers
file_page stray c = do
  (c₁, ok₁) ← add_status_line c 200 (codes "OK")
  if not ok₁ then done (c₁, false) else (do
    (c₂, ok₂) ← add_headers stray c₁ c₁.real_file_stat.size
    if not ok₂
        then done (c₂, false)
        else done (
          record c₂ {
            iv0 = record { base = buffer_at 0; len = length c₂.write_buf };
            iv1 = record { base = file_at 0; len = c₂.real_file_stat.size };
            iv_count = 2;
            bytes_to_send = int_of (length c₂.write_buf + c₂.real_file_stat.size);
          },
          true,
        ))

-- The literals of webserver/include/http_conn.h; the last byte of each form is '\n'.
abbrev pub title_400 : List ℕ
title_400 = codes "Bad Request"

abbrev pub form_400 : List ℕ
form_400 = codes "Your request has bad syntax or is inherently impossible to satisfy." ++ lf ∷ []

abbrev pub title_403 : List ℕ
title_403 = codes "Forbidden"

abbrev pub form_403 : List ℕ
form_403 = codes "You do not have permission to get file from this server." ++ lf ∷ []

abbrev pub title_404 : List ℕ
title_404 = codes "Not Found"

abbrev pub form_404 : List ℕ
form_404 = codes "The requested file was not found on this server." ++ lf ∷ []

abbrev pub title_500 : List ℕ
title_500 = codes "Internal Error"

abbrev pub form_500 : List ℕ
form_500 = codes "There was an unusual problem serving the requested file." ++ lf ∷ []

-- `Process_Write(ret)`. A request that is forbidden gets the title of error 404.
unfoldable pub process_write : (stray : Bool) → HttpConn → HttpCode → Outcome (HttpConn × Bool)
unfolding error_page file_page
process_write stray c internal_error = error_page stray c 500 title_500 form_500
process_write stray c bad_request = error_page stray c 400 title_400 form_400
process_write stray c no_resource = error_page stray c 404 title_404 form_404
process_write stray c forbidden_request = error_page stray c 403 title_404 form_403
process_write stray c file_request = file_page stray c
process_write stray c _ = done (c, false)
