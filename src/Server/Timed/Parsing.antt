-- ===== src/Server/Timed/Parsing.antt =====
-- The parsing of webserver/src/http_conn.cpp leaves a connection's descriptor and timer.
use my_tcp_cs.Base.{
  ℕ, zero, suc, ◌≡◌, refl, Bool, true, false, Option, none, some, List, [], ◌∷◌, done, ◌>>=◌, ◌==◌,
  if◌then◌else◌, codes,
}
use my_tcp_cs.Http.CStrings.{
  c_string, find_space, search_crlf, search_cr, search_lf, contains, search_header, HeaderName,
}
use my_tcp_cs.Http.Types.{
  HttpConn, LineStatus, line_ok, line_open, HttpCode, no_request, get_request, bad_request,
  CheckState, request_line, header, content,
}
use my_tcp_cs.Http.Parse.{
  lone_lf, parse_line, parse_target, parse_version, parse_request_line, parse_field, parse_head,
  parse_content, Next, again, answer, respond, process_line, next_line, process_read,
}
use my_tcp_cs.Http.Progress.Ending.{
  Ends, ends, breaks, throws, Ends-bind, Ends-if, Ends-option, bind-any,
}

-- The connection has the descriptor `fd` and the timer `p`.
pub data Bound (fd : Option ℕ) (p : ℕ) {X : Type 0} : HttpConn × X → Type 0 where
  bound : {c : HttpConn} {x : X} → c.sockfd ≡ fd → c.timer ≡ p → Bound fd p (c, x)

abbrev pub IsBound : (fd : Option ℕ) (p : ℕ) → HttpConn → Type 0
IsBound fd p d = (d.sockfd ≡ fd) × (d.timer ≡ p)

-- A result of `Process_Read`, if there is one.
abbrev pub Result : (fd : Option ℕ) (p : ℕ) → {X : Type 0} → Option (HttpConn × X) → Type 0
Result fd p none = Unit {0}
Result fd p (some r) = IsBound fd p r.0

-- The rest of the loop of `Process_Read`, on less fuel.
abbrev Later : (fd : Option ℕ) (p : ℕ) (stray : HttpCode) (fuel : ℕ) → Type 0
Later fd p stray fuel =
    (c : HttpConn) (status : LineStatus)
    → IsBound fd p c
    → Ends (Result fd p) (process_read stray fuel c status)

module _ {fd : Option ℕ} {p : ℕ} where
  pub Ends-Bound :
      {X : Type 0} (c : HttpConn) (x : X)
      → c.sockfd ≡ fd
      → c.timer ≡ p
      → Ends (Bound fd p) (done (c, x))
  Ends-Bound c x at of = ends (bound at of)

  ruleset stays = (Ends-if, Ends-option, bind-any, Ends-Bound, breaks, throws, refl)

  Ends-lone_lf : (c : HttpConn) → c.sockfd ≡ fd → c.timer ≡ p → Ends (Bound fd p) (lone_lf c)
  unfolding lone_lf
  Ends-lone_lf c at of = search stays depth 10

  Ends-parse_line : (c : HttpConn) → c.sockfd ≡ fd → c.timer ≡ p → Ends (Bound fd p) (parse_line c)
  unfolding parse_line
  Ends-parse_line c at of = bind-any _ _ λ text.
      Ends-option (search_crlf text) _ _
        (Ends-option (search_cr text) _ _
          (Ends-option (search_lf text) _ _ (Ends-Bound _ _ at of) λ n. Ends-lone_lf c at of)
          λ n. Ends-Bound _ _ at of)
        λ slen. search stays depth 10

  Ends-parse_target :
      (stray : HttpCode) (c : HttpConn) (url : Option ℕ)
      → c.sockfd ≡ fd
      → c.timer ≡ p
      → Ends (Bound fd p) (parse_target stray c url)
  unfolding parse_target
  Ends-parse_target stray c none at of = search stays
  Ends-parse_target stray c (some u) at of = search stays

  Ends-parse_version :
      (stray : HttpCode) (c : HttpConn) (u : ℕ)
      → c.sockfd ≡ fd
      → c.timer ≡ p
      → Ends (Bound fd p) (parse_version stray c u)
  unfolding parse_version
  Ends-parse_version stray c u at of = bind-any _ _ λ rest.
      Ends-option (find_space rest) _ _ (Ends-Bound _ _ at of)
        λ n. search (stays, Ends-parse_target) depth 14

  Ends-parse_request_line :
      (stray : HttpCode) (c : HttpConn) (text : ℕ)
      → c.sockfd ≡ fd
      → c.timer ≡ p
      → Ends (Bound fd p) (parse_request_line stray c text)
  unfolding parse_request_line
  Ends-parse_request_line stray c text at of = bind-any _ _ λ line.
      Ends-option (find_space line) _ _ (Ends-Bound _ _ at of)
        λ n. search (stays, Ends-parse_version) depth 14

  Ends-parse_content :
      (c : HttpConn) (text : ℕ)
      → c.sockfd ≡ fd
      → c.timer ≡ p
      → Ends (Bound fd p) (parse_content c text)
  unfolding parse_content
  Ends-parse_content c text at of = search stays depth 12

  done-if :
      {X : Type 0} (b : Bool) (l r : HttpConn × X)
      → Bound fd p l
      → Bound fd p r
      → Ends (Bound fd p) (done (if b then l else r))
  done-if true l r x y = ends x
  done-if false l r x y = ends y

  IsBound-if :
      (b : Bool) (l r : HttpConn)
      → IsBound fd p l
      → IsBound fd p r
      → IsBound fd p (if b then l else r)
  IsBound-if true l r x y = x
  IsBound-if false l r x y = y

  Ends-parse_field :
      (c : HttpConn) (text : ℕ) (line : List ℕ) (h : HeaderName)
      → IsBound fd p c
      → Ends (IsBound fd p) (parse_field c text line h)
  unfolding parse_field
  Ends-parse_field c text line HeaderName.connection b =
      ends (IsBound-if (contains line (codes "keep-alive")) (record c { linger = true }) c b b)
  Ends-parse_field c text line HeaderName.content_length b = bind-any _ _ λ n. ends b
  Ends-parse_field c text line HeaderName.host b = bind-any _ _ λ rest. ends b

  Ends-parse_head :
      (c : HttpConn) (text : ℕ) → IsBound fd p c → Ends (Bound fd p) (parse_head c text)
  unfolding parse_head
  Ends-parse_head c text b = bind-any (c_string c.read_buf text) _ on_line
    where
      on_line :
          (line : List ℕ)
          → Ends (Bound fd p) (elim line [
            | [] ↦ done (
                if c.content_length == 0
                then (c, get_request)
                else (record c { check_status = content }, no_request))
            | x ∷ xs ↦ elim (search_header (x ∷ xs)) [
              | none ↦ done (c, no_request)
              | some h ↦ (parse_field c text (x ∷ xs) h >>= λ c'. done (c', no_request))
            ]
          ])
      on_line [] = done-if (c.content_length == 0) _ _ (bound b.0 b.1) (bound b.0 b.1)
      on_line (x ∷ xs) =
          Ends-option (search_header (x ∷ xs)) _ _ (Ends-Bound _ _ b.0 b.1)
            λ h. Ends-bind _ _ (Ends-parse_field c text (x ∷ xs) h b) λ c' q. Ends-Bound _ _ q.0 q.1

  on_request :
      (r : HttpConn × HttpCode)
      → Bound fd p r
      → Bound fd p {X = Next}
          (elim r.1 [ bad_request ↦ (r.0, answer bad_request) | _ ↦ (r.0, again line_ok) ])
  on_request (c, bad_request) (bound at of) = bound at of
  on_request (c, _) (bound at of) = bound at of

  on_head :
      (r : HttpConn × HttpCode)
      → Bound fd p r
      → Bound fd p {X = Next} (elim r.1 [
        | bad_request ↦ (r.0, answer bad_request)
        | get_request ↦ (r.0, respond)
        | _ ↦ (r.0, again line_ok)
      ])
  on_head (c, bad_request) (bound at of) = bound at of
  on_head (c, get_request) (bound at of) = bound at of
  on_head (c, _) (bound at of) = bound at of

  on_content :
      (r : HttpConn × HttpCode)
      → Bound fd p r
      → Bound fd p {X = Next}
          (elim r.1 [ get_request ↦ (r.0, respond) | _ ↦ (r.0, again line_open) ])
  on_content (c, get_request) (bound at of) = bound at of
  on_content (c, _) (bound at of) = bound at of

  Ends-process_line :
      (stray : HttpCode) (c : HttpConn) (text : ℕ) (s : CheckState)
      → IsBound fd p c
      → Ends (Bound fd p) (process_line stray c text s)
  unfolding process_line
  Ends-process_line stray c text request_line b =
      Ends-bind _ _ (Ends-parse_request_line stray c text b.0 b.1) λ r q. ends (on_request r q)
  Ends-process_line stray c text header b =
      Ends-bind _ _ (Ends-parse_head c text b) λ r q. ends (on_head r q)
  Ends-process_line stray c text content b =
      Ends-bind _ _ (Ends-parse_content c text b.0 b.1) λ r q. ends (on_content r q)

  Ends-next_line :
      (c : HttpConn) (status : LineStatus) (s : CheckState)
      → IsBound fd p c
      → Ends (Bound fd p) (next_line c status s)
  unfolding next_line
  Ends-next_line c line_ok content b = Ends-Bound _ _ b.0 b.1
  Ends-next_line c _ _ b = Ends-parse_line c b.0 b.1

  went :
      (stray : HttpCode) (fuel : ℕ)
      → Later fd p stray fuel
      → (r : HttpConn × Next) → Bound fd p r
      → Ends (Result fd p) (elim r.1 [
        | again status ↦ process_read stray fuel r.0 status
        | other ↦ done (some (r.0, other))
      ])
  went stray fuel more (c, again status) (bound at of) = more c status (at, of)
  went stray fuel more (c, _) (bound at of) = ends (at, of)

  parsed :
      (stray : HttpCode) (fuel : ℕ)
      → Later fd p stray fuel
      → (r : HttpConn × LineStatus) → Bound fd p r
      → Ends (Result fd p) (elim r.1 [
        | line_ok ↦ (do
          let text = r.0.start_of_line
          (c₂, next) ←
              process_line stray
                (record r.0 { start_of_line = r.0.checked_idx })
                text
                r.0.check_status
          elim next [
            | again status ↦ process_read stray fuel c₂ status
            | other ↦ done (some (c₂, other))
          ])
        | _ ↦ done (some (r.0, answer no_request))
      ])
  parsed stray fuel more (c, line_ok) (bound at of) =
      Ends-bind _ _ (Ends-process_line stray _ _ c.check_status (at, of)) (went stray fuel more)
  parsed stray fuel more (c, _) (bound at of) = ends (at, of)

  pub Ends-process_read :
      (stray : HttpCode) (fuel : ℕ) (c : HttpConn) (status : LineStatus)
      → IsBound fd p c
      → Ends (Result fd p) (process_read stray fuel c status)
  unfolding process_read
  Ends-process_read stray zero c status b = ends tt
  Ends-process_read stray (suc fuel) c status b =
      Ends-bind _ _ (Ends-next_line c status c.check_status b)
        (parsed stray fuel λ c' status' b'. Ends-process_read stray fuel c' status' b')
