-- ===== src/Http/Headers.antt =====
-- `Process_Read` of webserver/src/http_conn.cpp over the header lines of a request without a body.
use mathlib.Core.Bool.{or_assoc}
use mathlib.Core.List.{append_assoc}
use my_tcp_cs.Base.{
  ℕ, zero, suc, ◌+◌, ◌<◌, ◌≡◌, ◌≢◌, refl, sym, ◌∙◌, ap, Bool, false, ◌||◌, some, List, [], ◌∷◌,
  ◌++◌, done, ◌==◌, length, All, length-append, cr, lf, arith,
}
use my_tcp_cs.Http.CStrings.{until_nul, c_string, search_header, HeaderName}
use my_tcp_cs.Http.Types.{HttpConn, line_ok, HttpCode, no_request, get_request, CheckState, header}
use my_tcp_cs.Http.Parse.{
  parse_line, parse_head, Next, again, respond, process_line, next_line, process_read,
}
use my_tcp_cs.Http.Lines.{Plain, bind-done, until_nul-append, parse_line-crlf}
use my_tcp_cs.Http.RequestLine.Words.{c_string-pre, if-true}
use my_tcp_cs.Http.Fields.{keeps_alive, parse_head-field}

-- Header lines, the blank line, and what comes behind.
abbrev pub fields_text : List (List ℕ) → (tail : List ℕ) → List ℕ
fields_text [] tail = cr ∷ lf ∷ tail
fields_text (f ∷ fs) tail = f ++ cr ∷ lf ∷ fields_text fs tail

-- A header line that announces no body.
pub record IsField (f : List ℕ) : Type 0 where
  pub some_there : 0 < length f
  pub plain : All Plain f
  pub no_body : search_header f ≢ some HeaderName.content_length

abbrev pub any_keeps : List (List ℕ) → Bool
any_keeps [] = false
any_keeps (f ∷ fs) = keeps_alive f || any_keeps fs

pub until_nul-fields_text :
    (fs : List (List ℕ)) (tail t : List ℕ)
    → All IsField fs
    → until_nul tail ≡ done t
    → until_nul (fields_text fs tail) ≡ done (fields_text fs t)
unfolding until_nul
until_nul-fields_text [] tail t fields e = rw e refl
until_nul-fields_text (f ∷ fs) tail t fields e =
    until_nul-append f _ _ fields.0.plain (rw (until_nul-fields_text fs tail t fields.1 e) refl)

append-nil_line : (w : List ℕ) → w ++ [] ≡ w
append-nil_line [] = refl
append-nil_line (b ∷ w) = ap (◌∷◌ b) (append-nil_line w)

pub until_nul-Plain : (w s : List ℕ) → All Plain w → until_nul (w ++ 0 ∷ s) ≡ done w
until_nul-Plain w s plain =
    until_nul-append w (0 ∷ s) [] plain (unfold until_nul in refl) ∙ ap done (append-nil_line w)

-- One round of the loop in `Process_Read`.
pub process_read-line :
    (stray : HttpCode) (fuel : ℕ) (c c₁ : HttpConn) (r : HttpConn × Next)
    → next_line c line_ok c.check_status ≡ done (c₁, line_ok)
    → process_line stray
        (record c₁ { start_of_line = c₁.checked_idx })
        c₁.start_of_line
        c₁.check_status
      ≡ done r
    → process_read stray (suc fuel) c line_ok ≡ (elim r.1 [
      | again status ↦ process_read stray fuel r.0 status
      | other ↦ done (some (r.0, other))
    ])
unfolding process_read
process_read-line stray fuel c c₁ r e f = bind-done _ e ∙ bind-done _ f

next_line-header :
    (c : HttpConn) → c.check_status ≡ header → next_line c line_ok c.check_status ≡ parse_line c
unfolding next_line
next_line-header c e = ap (next_line c line_ok) e

process_line-field :
    (stray : HttpCode) (c c' : HttpConn) (text : ℕ) (s : CheckState)
    → s ≡ header
    → parse_head c text ≡ done (c', no_request)
    → process_line stray c text s ≡ done (c', again line_ok)
unfolding process_line
process_line-field stray c c' text s e f = ap (process_line stray c text) e ∙ bind-done _ f

parse_head-blank :
    (c : HttpConn) (text : ℕ)
    → c_string c.read_buf text ≡ done []
    → c.content_length ≡ 0
    → parse_head c text ≡ done (c, get_request)
unfolding parse_head
parse_head-blank c text e none_more =
    bind-done _ e ∙ ap done (if-true (c.content_length == 0) _ _ (ground (arith, none_more)))

process_line-blank :
    (stray : HttpCode) (c : HttpConn) (text : ℕ) (s : CheckState)
    → s ≡ header
    → c_string c.read_buf text ≡ done []
    → c.content_length ≡ 0
    → process_line stray c text s ≡ done (c, respond)
unfolding process_line
process_line-blank stray c text s e f none_more =
    ap (process_line stray c text) e ∙ bind-done _ (parse_head-blank c text f none_more)

-- What reading the header lines leaves: the bytes `pre`, the target, the file name and the write
-- buffer stay, and the keep-alive flag is set if it was or if some line asks for it.
pub record HeadersRead (c c' : HttpConn) (pre : List ℕ) (fs : List (List ℕ)) : Type 0 where
  pub behind : List ℕ
  pub read_buf : c'.read_buf ≡ pre ++ behind
  pub url : c'.url ≡ c.url
  pub real_file : c'.real_file ≡ c.real_file
  pub write_buf : c'.write_buf ≡ c.write_buf
  pub linger : c'.linger ≡ (c.linger || any_keeps fs)

-- The loop stands in front of the header lines `fs`.
pub record AtHeaders (c : HttpConn) (pre : List ℕ) (fs : List (List ℕ)) (tail : List ℕ)
    : Type 0 where
  pub read_buf : c.read_buf ≡ pre ++ fields_text fs tail
  pub checked_idx : c.checked_idx ≡ length pre
  pub start_of_line : c.start_of_line ≡ length pre
  pub check_status : c.check_status ≡ header
  pub content_length : c.content_length ≡ 0

regroup : (pre f rest : List ℕ) → pre ++ (f ++ 0 ∷ 0 ∷ rest) ≡ (pre ++ (f ++ 0 ∷ 0 ∷ [])) ++ rest
regroup pre f rest =
    ap (λ r. pre ++ r) (sym (append_assoc f (0 ∷ 0 ∷ []) rest))
    ∙ sym (append_assoc pre (f ++ 0 ∷ 0 ∷ []) rest)

-- From the header lines on, `Process_Read` reads to the blank line and goes on to answer.
pub process_read-headers :
    (stray : HttpCode) (fuel : ℕ) (c : HttpConn) (pre : List ℕ) (fs : List (List ℕ))
    (tail t : List ℕ)
    → AtHeaders c pre fs tail
    → All IsField fs
    → until_nul tail ≡ done t
    → length fs < fuel
    → (c' : HttpConn) × (process_read stray fuel c line_ok ≡ done (some (c', respond)))
      × HeadersRead c c' pre fs
process_read-headers stray zero c pre fs tail t at fields ends room = absurd (omega (arith, room))
process_read-headers stray (suc fuel) c pre [] tail t at fields ends room =
    let line =
      next_line-header c at.check_status
      ∙ parse_line-crlf c pre [] tail t at.read_buf at.checked_idx tt ends in
    let buf = pre ++ 0 ∷ 0 ∷ tail in
    let c₁ = record c { read_buf = buf; checked_idx = length pre + 0 + 2 } in
    let here : c_string buf c.start_of_line ≡ done [] =
      c_string-pre pre (0 ∷ 0 ∷ tail) [] c.start_of_line at.start_of_line
        (unfold until_nul in refl) in
    (
      record c₁ { start_of_line = c₁.checked_idx },
      process_read-line stray fuel c c₁ _ line (
          process_line-blank stray (record c₁ { start_of_line = c₁.checked_idx }) c.start_of_line
            c.check_status at.check_status here at.content_length),
      record {
        behind = 0 ∷ 0 ∷ tail;
        read_buf = refl;
        url = refl;
        real_file = refl;
        write_buf = refl;
        linger = ground arith;
      },
    )
process_read-headers stray (suc fuel) c pre ([] ∷ fs) tail t at fields ends room =
    absurd (omega (arith, fields.0.some_there))
process_read-headers stray (suc fuel) c pre ((b ∷ bs) ∷ fs) tail t at fields ends room =
    let f : List ℕ = b ∷ bs in
    let rest = fields_text fs tail in
    let line =
      next_line-header c at.check_status
      ∙ parse_line-crlf c pre f rest (fields_text fs t) at.read_buf at.checked_idx fields.0.plain
          (until_nul-fields_text fs tail t fields.1 ends) in
    let buf = pre ++ (f ++ 0 ∷ 0 ∷ rest) in
    let c₁ : HttpConn = record c { read_buf = buf; checked_idx = length pre + length f + 2 } in
    let c₂ : HttpConn = record c₁ { start_of_line = c₁.checked_idx } in
    let here : c_string buf c.start_of_line ≡ done f =
      c_string-pre pre (f ++ 0 ∷ 0 ∷ rest) f c.start_of_line at.start_of_line
        (until_nul-Plain f (0 ∷ rest) fields.0.plain) in
    let (c₃, head, same, linger, length_same) =
      parse_head-field c₂ c.start_of_line b bs here fields.0.no_body in
    let pre' = pre ++ (f ++ 0 ∷ 0 ∷ []) in
    let move : pre ++ (f ++ 0 ∷ 0 ∷ rest) ≡ pre' ++ rest = regroup pre f rest in
    let count : length pre' ≡ length pre + length f + 2 =
      omega (arith, length-append pre (f ++ 0 ∷ 0 ∷ []), length-append f (0 ∷ 0 ∷ [])) in
    let (c', rest_read, h) =
      process_read-headers stray fuel c₃ pre' fs tail t
        (record {
          read_buf = same.read_buf ∙ move;
          checked_idx = same.checked_idx ∙ sym count;
          start_of_line = same.start_of_line ∙ sym count;
          check_status = same.check_status ∙ at.check_status;
          content_length = length_same ∙ at.content_length;
        })
        fields.1 ends (omega (arith, room)) in
    (
      c',
      process_read-line stray fuel c c₁ _ line
            (process_line-field stray c₂ c₃ c.start_of_line c.check_status at.check_status head)
          ∙ rest_read,
      record {
        behind = (f ++ 0 ∷ 0 ∷ []) ++ h.behind;
        read_buf = h.read_buf ∙ append_assoc pre (f ++ 0 ∷ 0 ∷ []) h.behind;
        url = h.url ∙ same.url;
        real_file = h.real_file ∙ same.real_file;
        write_buf = h.write_buf ∙ same.write_buf;
        linger =
            h.linger
            ∙ ap (λ l. l || any_keeps fs) linger
            ∙ or_assoc c.linger (keeps_alive f) (any_keeps fs);
      },
    )
