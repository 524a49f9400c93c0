-- ===== src/Http/Progress.antt =====
-- `Process_Read` of webserver/src/http_conn.cpp comes to an end: every line that `Parse_Line`
-- accepts moves `m_checked_idx_` on inside the buffer, and nothing moves it back.
pub mod Ending
pub mod Fields
pub mod Advance
use my_tcp_cs.Base.{
  ℕ, zero, suc, ◌+◌, ◌*◌, ◌-◌, ◌<◌, ◌≤◌, ◌≡◌, ◌≢◌, refl, sym, ◌∙◌, ap, Bool, true, false, inl, inr,
  Option, none, some, List, [], ◌∷◌, Outcome, done, undefined, terminated, ◌>>=◌, ltb, leb, ◌==◌,
  ◌&&◌, get_or, cr, if◌then◌else◌, length, set, codes, length-set, Bool-cases, Option-cases, arith,
}
use my_tcp_cs.Http.CStrings.{
  c_string, poke, split_break, crlf_at, search_crlf, search_cr, search_lf, find_space, find_byte,
  eq_no_case, starts_no_case, contains, span_space, leading_digits, stoi, search_header, HeaderName,
}
use my_tcp_cs.Http.Types.{
  HttpConn, Method, LineStatus, line_ok, line_bad, line_open, HttpCode, no_request, get_request,
  bad_request, CheckState, request_line, header, content, get,
}
use my_tcp_cs.Http.Parse.{
  unparsed, lone_lf, parse_line, parse_target, strip_scheme, parse_version, parse_request_line,
  parse_field, parse_head, parse_content, Next, again, answer, respond, process_line, next_line,
  process_read,
}
use my_tcp_cs.Http.Progress.Ending.{Ends, ends, breaks, throws, Ends-bind, Still, still}
use my_tcp_cs.Http.Progress.Fields.{Ends-parse_request_line, Ends-parse_head, Ends-parse_content}
use my_tcp_cs.Http.Progress.Advance.{Advanced, advanced, bad, open_end, Ends-parse_line}

-- A status with which the loop parses no line first, in the body of a request.
abbrev weight : LineStatus → ℕ
weight line_ok = 1
weight _ = 0

abbrev most : CheckState → ℕ
most content = 0
most _ = 1

-- How the loop goes on: in the body of a request, only with LINE_OPEN.
data Onward (L i : ℕ) (s : CheckState) : HttpConn × Next → Type 0 where
  onward :
      {c : HttpConn} {status : LineStatus}
      → length c.read_buf ≡ L
      → c.checked_idx ≡ i
      → weight status ≤ most s
      → Onward L i s (c, again status)
  answers : {c : HttpConn} {code : HttpCode} → Onward L i s (c, answer code)
  responds : {c : HttpConn} → Onward L i s (c, respond)

on_request :
    (L i : ℕ) (r : HttpConn × HttpCode)
    → Still L i r
    → Onward L i request_line
        (elim r.1 [ bad_request ↦ (r.0, answer bad_request) | _ ↦ (r.0, again line_ok) ])
on_request L i (c, code) (still len at) =
    elim code
      as (λ code.
        Onward L i request_line
          (elim code [ bad_request ↦ (c, answer bad_request) | _ ↦ (c, again line_ok) ])) [
            | bad_request ↦ answers
            | _ ↦ onward len at (omega arith)
          ]

on_head :
    (L i : ℕ) (r : HttpConn × HttpCode)
    → Still L i r
    → Onward L i header (elim r.1 [
      | bad_request ↦ (r.0, answer bad_request)
      | get_request ↦ (r.0, respond)
      | _ ↦ (r.0, again line_ok)
    ])
on_head L i (c, code) (still len at) =
    elim code
      as (λ code. Onward L i header (elim code [
        | bad_request ↦ (c, answer bad_request)
        | get_request ↦ (c, respond)
        | _ ↦ (c, again line_ok)
      ])) [ bad_request ↦ answers | get_request ↦ responds | _ ↦ onward len at (omega arith) ]

on_content :
    (L i : ℕ) (r : HttpConn × HttpCode)
    → Still L i r
    → Onward L i content (elim r.1 [ get_request ↦ (r.0, respond) | _ ↦ (r.0, again line_open) ])
on_content L i (c, code) (still len at) =
    elim code
      as (λ code.
        Onward L i content (elim code [ get_request ↦ (c, respond) | _ ↦ (c, again line_open) ])) [
          | get_request ↦ responds
          | _ ↦ onward len at (omega arith)
        ]

module _ {L i : ℕ} where
  Ends-process_line :
      (stray : HttpCode) (c : HttpConn) (text : ℕ) (s : CheckState)
      → length c.read_buf ≡ L
      → c.checked_idx ≡ i
      → Ends (Onward L i s) (process_line stray c text s)
  unfolding process_line
  Ends-process_line stray c text request_line len at =
      Ends-bind _ _ (Ends-parse_request_line stray c text len at) λ r st. ends (on_request _ _ r st)
  Ends-process_line stray c text header len at =
      Ends-bind _ _ (Ends-parse_head c text len at) λ r st. ends (on_head _ _ r st)
  Ends-process_line stray c text content len at =
      Ends-bind _ _ (Ends-parse_content c text len at) λ r st. ends (on_content _ _ r st)

-- What the condition of the loop leaves, with fuel for the rest of it.
data Ready (L fuel : ℕ) : HttpConn × LineStatus → Type 0 where
  ready :
      {c : HttpConn}
      → length c.read_buf ≡ L
      → 2 * (L - c.checked_idx) + most c.check_status < fuel
      → Ready L fuel (c, line_ok)
  stopped_bad : {c : HttpConn} → Ready L fuel (c, line_bad)
  stopped_open : {c : HttpConn} → Ready L fuel (c, line_open)

most-bound : (s : CheckState) → most s ≤ 1
most-bound request_line = omega arith
most-bound header = omega arith
most-bound content = omega arith

weight-bound : (status : LineStatus) → weight status ≤ 1
weight-bound line_ok = omega arith
weight-bound line_bad = omega arith
weight-bound line_open = omega arith

module _ {L fuel : ℕ} where
  Ready-of_Advanced :
      {i : ℕ} (r : HttpConn × LineStatus) → 2 * (L - i) ≤ fuel → Advanced L i r → Ready L fuel r
  Ready-of_Advanced (c, _) room (advanced len up inside) =
      ready len (omega (arith, room, up, inside, most-bound c.check_status))
  Ready-of_Advanced (c, _) room bad = stopped_bad
  Ready-of_Advanced (c, _) room open_end = stopped_open

  Ends-parsed :
      (c : HttpConn)
      → length c.read_buf ≡ L
      → 2 * (L - c.checked_idx) ≤ fuel
      → Ends (Ready L fuel) (parse_line c)
  Ends-parsed c len room = grown (Ends-parse_line c len refl)
    where
      grown :
          {o : Outcome (HttpConn × LineStatus)}
          → Ends (Advanced L c.checked_idx) o
          → Ends (Ready L fuel) o
      grown (ends {a = r} p) = ends (Ready-of_Advanced r room p)
      grown breaks = breaks
      grown throws = throws

  Ends-next_line :
      (c : HttpConn) (status : LineStatus) (s : CheckState)
      → c.check_status ≡ s
      → length c.read_buf ≡ L
      → 2 * (L - c.checked_idx) + weight status < suc fuel
      → Ends (Ready L fuel) (next_line c status s)
  unfolding next_line
  Ends-next_line c line_ok content at len room = ends (ready len (rw at (omega (arith, room))))
  Ends-next_line c line_ok request_line at len room = Ends-parsed c len (omega (arith, room))
  Ends-next_line c line_ok header at len room = Ends-parsed c len (omega (arith, room))
  Ends-next_line c line_bad s at len room = Ends-parsed c len (omega (arith, room))
  Ends-next_line c line_open s at len room = Ends-parsed c len (omega (arith, room))

-- A result is there: the fuel did not run out.
data Result : Option (HttpConn × Next) → Type 0 where
  result : {r : HttpConn × Next} → Result (some r)

Ends-process_read :
    (stray : HttpCode) (fuel : ℕ) (c : HttpConn) (status : LineStatus)
    → 2 * (length c.read_buf - c.checked_idx) + weight status < fuel
    → Ends Result (process_read stray fuel c status)
unfolding process_read
Ends-process_read stray zero c status room = grind (arith, room)
Ends-process_read stray (suc fuel) c status room =
    Ends-bind _ _ (Ends-next_line c status c.check_status refl refl room)
      λ r p. on_status r.0 r.1 p (λ c' status'. Ends-process_read stray fuel c' status')
  where
    Rest : Type 0
    Rest =
        (c' : HttpConn) (status' : LineStatus)
        → 2 * (length c'.read_buf - c'.checked_idx) + weight status' < fuel
        → Ends Result (process_read stray fuel c' status')

    on_next :
        {i : ℕ} {s : CheckState} (r : HttpConn × Next)
        → 2 * (length c.read_buf - i) + most s < fuel
        → Onward (length c.read_buf) i s r
        → Rest
        → Ends Result (elim r.1 [
          | again status₂ ↦ process_read stray fuel r.0 status₂
          | other ↦ done (some (r.0, other))
        ])
    on_next (c₂, _) left (onward len at light) rest =
        rest c₂ _ (omega (arith, left, len, at, light))
    on_next (c₂, _) left answers rest = ends result
    on_next (c₂, _) left responds rest = ends result

    on_status :
        (c₁ : HttpConn) (status₁ : LineStatus)
        → Ready (length c.read_buf) fuel (c₁, status₁)
        → Rest
        → Ends Result (elim status₁ [
          | line_ok ↦ (do
            let text = c₁.start_of_line
            (c₂, next) ←
                process_line stray
                  (record c₁ { start_of_line = c₁.checked_idx })
                  text
                  c₁.check_status
            elim next [
              | again status₂ ↦ process_read stray fuel c₂ status₂
              | other ↦ done (some (c₂, other))
            ])
          | _ ↦ done (some (c₁, answer no_request))
        ])
    on_status c₁ _ (ready len left) rest =
        Ends-bind _ _
          (Ends-process_line stray (record c₁ { start_of_line = c₁.checked_idx }) _ c₁.check_status
            len refl)
          λ r p. on_next r left p rest
    on_status c₁ _ stopped_bad rest = ends result
    on_status c₁ _ stopped_open rest = ends result

-- With fuel of at least two more than twice the part of the buffer behind `m_checked_idx_`,
-- `Process_Read` does not run out of fuel, whatever the buffer holds and whatever the missing
-- `return` of `Parse_Request_Line` gives.
pub process_read-enough :
    (stray : HttpCode) (fuel : ℕ) (c : HttpConn) (status : LineStatus)
    → 2 * (length c.read_buf - c.checked_idx) + 1 < fuel
    → process_read stray fuel c status ≢ done none
process_read-enough stray fuel c status room e =
    ran _ (Ends-process_read stray fuel c status (omega (arith, room, weight-bound status))) e
  where
    ran : (o : Outcome (Option (HttpConn × Next))) → Ends Result o → o ≢ done none
    ran _ (ends result) e = cc e
    ran _ breaks e = cc e
    ran _ throws e = cc e
