-- ===== src/Http/Parse.antt =====
-- The parsing half of webserver/src/http_conn.cpp: `Parse_Line`, `Parse_Request_Line`,
-- `Parse_Head`, `Parese_Content` and the state machine `Process_Read`.
use my_tcp_cs.Base.{
  ℕ, zero, suc, ◌+◌, ◌-◌, ◌%◌, ◌^◌, true, ◌&&◌, Option, none, some, List, [], ◌∷◌, Outcome, done,
  undefined, ◌>>=◌, ltb, leb, ◌==◌, if◌then◌else◌, get_or, codes, cr,
}
use my_tcp_cs.Http.CStrings.{
  c_string, poke, search_crlf, search_cr, search_lf, find_space, find_byte, span_space, eq_no_case,
  starts_no_case, contains, search_header, HeaderName, leading_digits, stoi,
}
use my_tcp_cs.Http.Types.{
  HttpConn, LineStatus, line_ok, line_bad, line_open, HttpCode, no_request, get_request,
  bad_request, CheckState, request_line, header, content, get,
}

-- `size_t len = m_read_idx_ - m_checked_idx_`, which wraps.
unfoldable pub unparsed : HttpConn → ℕ
unparsed c = (c.read_idx + 2 ^ 64 - c.checked_idx) % 2 ^ 64

-- What `Parse_Line` does where a lone '\n' comes first.
unfoldable pub lone_lf : HttpConn → Outcome (HttpConn × LineStatus)
lone_lf c =
    if ltb 1 c.checked_idx && (get_or c.read_buf (c.checked_idx - 1) 0 == cr)
    then (do
      buf ← poke c.read_buf (c.checked_idx - 1) 0
      buf' ← poke buf c.checked_idx 0
      done (record c { read_buf = buf'; checked_idx = c.checked_idx + 1 }, line_ok))
    else done (c, line_bad)

-- `Parse_Line()`
unfoldable pub parse_line : HttpConn → Outcome (HttpConn × LineStatus)
unfolding lone_lf unparsed
parse_line c = do
  text ← c_string c.read_buf c.checked_idx
  elim (search_crlf text) [
    | some slen ↦ (do
      buf ← poke c.read_buf (c.checked_idx + slen - 2) 0
      buf' ← poke buf (c.checked_idx + slen - 1) 0
      done (record c { read_buf = buf'; checked_idx = c.checked_idx + slen }, line_ok))
    | none ↦ elim (search_cr text) [
      | some n ↦ done (c, if n == unparsed c then line_open else line_bad)
      | none ↦ elim (search_lf text) [ some n ↦ lone_lf c | none ↦ done (c, line_open) ]
    ]
  ]

-- The last part of `Parse_Request_Line`: the form of the target at `url`. A good line ends without
-- a `return`, so that `stray`, whatever stands in the return register, is its result.
unfoldable pub parse_target :
    (stray : HttpCode) → HttpConn → (url : Option ℕ) → Outcome (HttpConn × HttpCode)
parse_target stray c none = done (record c { url = none }, bad_request)
parse_target stray c (some u) =
    let c' = record c { url = some u } in
    if get_or c.read_buf u 0 == b'/'
    then done (record c' { check_status = header }, stray)
    else done (c', bad_request)

-- `if (strncasecmp(m_url_, "http://", 7) == 0) { m_url_ += 7; m_url_ = strchr(m_url_, '/'); }`
unfoldable pub strip_scheme : List ℕ → (url : ℕ) → Outcome (Option ℕ)
strip_scheme buf u = do
  target ← c_string buf u
  if starts_no_case target (codes "http://")
      then (do
        rest ← c_string buf (u + 7)
        done (elim (find_byte b'/' rest) [ none ↦ none | some n ↦ some (u + 7 + n) ]))
      else done (some u)

-- The part of `Parse_Request_Line` behind the method, `url` being the offset behind it.
unfoldable pub parse_version :
    (stray : HttpCode) → HttpConn → (url : ℕ) → Outcome (HttpConn × HttpCode)
unfolding parse_target strip_scheme
parse_version stray c u = do
  rest ← c_string c.read_buf u
  elim (find_space rest) [
    | none ↦ done (record c { url = some u; version = none }, bad_request)
    | some n ↦ (do
      buf ← poke c.read_buf (u + n) 0
      version ← c_string buf (u + n + 1)
      let c' = record c { read_buf = buf; url = some u; version = some (u + n + 1) }
      if eq_no_case version (codes "HTTP/1.1")
          then (do target ← strip_scheme buf u; parse_target stray c' target)
          else done (c', bad_request))
  ]

-- `Parse_Request_Line(text)`, `text` an offset.
unfoldable pub parse_request_line :
    (stray : HttpCode) → HttpConn → (text : ℕ) → Outcome (HttpConn × HttpCode)
unfolding parse_version
parse_request_line stray c text = do
  line ← c_string c.read_buf text
  elim (find_space line) [
    | none ↦ done (record c { url = none }, bad_request)
    | some n ↦ (do
      buf ← poke c.read_buf (text + n) 0
      method ← c_string buf text
      let c' = record c { read_buf = buf; url = some (text + n + 1) }
      if eq_no_case method (codes "GET")
          then parse_version stray (record c' { method = get }) (text + n + 1)
          else done (c', bad_request))
  ]

-- The cases of `Parse_Head` by the header name found.
unfoldable pub parse_field : HttpConn → (text : ℕ) → (line : List ℕ) → HeaderName → Outcome HttpConn
parse_field c text line HeaderName.connection =
    done (if contains line (codes "keep-alive") then record c { linger = true } else c)
parse_field c text line HeaderName.content_length = do
  n ← stoi (leading_digits line)
  done (record c { content_length = n })
parse_field c text line HeaderName.host = do
  rest ← c_string c.read_buf (text + 5)
  done (record c { host = some (text + 5 + span_space rest) })

-- `Parse_Head(text)`
unfoldable pub parse_head : HttpConn → (text : ℕ) → Outcome (HttpConn × HttpCode)
unfolding parse_field
parse_head c text = do
  line ← c_string c.read_buf text
  elim line [
    | [] ↦ done (
        if c.content_length == 0
        then (c, get_request)
        else (record c { check_status = content }, no_request))
    | b ∷ bs ↦ elim (search_header (b ∷ bs)) [
      | none ↦ done (c, no_request)
      | some h ↦ (parse_field c text (b ∷ bs) h >>= λ c'. done (c', no_request))
    ]
  ]

-- `Parese_Content(text)`. The sum is of `int`s, which must not overflow.
unfoldable pub parse_content : HttpConn → (text : ℕ) → Outcome (HttpConn × HttpCode)
parse_content c text =
    if leb (2 ^ 31) (c.content_length + c.checked_idx)
    then undefined
    else if leb (c.content_length + c.checked_idx) c.read_idx
    then (do
      buf ← poke c.read_buf (text + c.content_length) 0
      done (record c { read_buf = buf }, get_request))
    else done (c, no_request)

-- How `Process_Read` goes on after a line.
pub data Next : Type 0 where
  again : LineStatus → Next
  answer : HttpCode → Next
  respond : Next

-- The body of the `switch` in `Process_Read`; `respond` stands for `return Do_Response()`.
unfoldable pub process_line :
    (stray : HttpCode) → HttpConn → (text : ℕ) → CheckState → Outcome (HttpConn × Next)
unfolding parse_request_line parse_head parse_content
process_line stray c text request_line = do
  (c', ret) ← parse_request_line stray c text
  done (elim ret [ bad_request ↦ (c', answer bad_request) | _ ↦ (c', again line_ok) ])
process_line stray c text header = do
  (c', ret) ← parse_head c text
  done (elim ret [
    | bad_request ↦ (c', answer bad_request)
    | get_request ↦ (c', respond)
    | _ ↦ (c', again line_ok)
  ])
process_line stray c text content = do
  (c', ret) ← parse_content c text
  done (elim ret [ get_request ↦ (c', respond) | _ ↦ (c', again line_open) ])

-- The condition of the `while` in `Process_Read`, with the line status it leaves.
unfoldable pub next_line : HttpConn → LineStatus → CheckState → Outcome (HttpConn × LineStatus)
unfolding parse_line
next_line c line_ok content = done (c, line_ok)
next_line c _ _ = parse_line c

-- `Process_Read()` up to its `Do_Response`, with fuel; `none` means that the fuel ran out.
unfoldable pub process_read :
    (stray : HttpCode) → ℕ → HttpConn → LineStatus → Outcome (Option (HttpConn × Next))
unfolding next_line process_line
process_read stray zero c status = done none
process_read stray (suc fuel) c status = do
  (c₁, status₁) ← next_line c status c.check_status
  elim status₁ [
    | line_ok ↦ (do
      let text = c₁.start_of_line
      (c₂, next) ←
          process_line stray (record c₁ { start_of_line = c₁.checked_idx }) text c₁.check_status
      elim next [
        | again status₂ ↦ process_read stray fuel c₂ status₂
        | other ↦ done (some (c₂, other))
      ])
    | _ ↦ done (some (c₁, answer no_request))
  ]
