-- ===== src/Http/Progress/Fields.antt =====
-- The parsers of a single line in webserver/src/http_conn.cpp do not move `m_checked_idx_`.
use my_tcp_cs.Base.{
  ℕ, ◌+◌, ◌≡◌, refl, Bool, true, false, Option, none, some, List, [], ◌∷◌, Outcome, done, undefined,
  terminated, ◌>>=◌, ◌==◌, if◌then◌else◌, length, codes,
}
use my_tcp_cs.Http.CStrings.{
  c_string, poke, find_space, contains, span_space, leading_digits, stoi, search_header, HeaderName,
}
use my_tcp_cs.Http.Types.{HttpConn, HttpCode, no_request, get_request, content}
use my_tcp_cs.Http.Parse.{
  parse_target, parse_version, parse_request_line, parse_field, parse_head, parse_content,
}
use my_tcp_cs.Http.Progress.Ending.{
  Ends, ends, breaks, throws, Ends-bind, Ends-if, Ends-option, bind-any, Ends-poke, Still, still,
}

module _ {L i : ℕ} where
  Ends-Still :
      {X : Type 0} (c : HttpConn) (x : X)
      → length c.read_buf ≡ L
      → c.checked_idx ≡ i
      → Ends (Still L i) (done (c, x))
  Ends-Still c x len at = ends (still len at)

  bind-poke :
      {X : Type 0} (buf : List ℕ) (j v : ℕ) (k : List ℕ → Outcome (HttpConn × X))
      → length buf ≡ L
      → ((buf' : List ℕ) → length buf' ≡ L → Ends (Still L i) (k buf'))
      → Ends (Still L i) (poke buf j v >>= k)
  bind-poke buf j v k len next = Ends-bind _ _ (Ends-poke buf j v len) next

  ruleset stays = (Ends-if, Ends-option, bind-any, Ends-Still, bind-poke, breaks, throws, refl)

  Ends-parse_target :
      (stray : HttpCode) (c : HttpConn) (url : Option ℕ)
      → length c.read_buf ≡ L
      → c.checked_idx ≡ i
      → Ends (Still L i) (parse_target stray c url)
  unfolding parse_target
  Ends-parse_target stray c none len at = search stays
  Ends-parse_target stray c (some u) len at = search stays

  Ends-parse_version :
      (stray : HttpCode) (c : HttpConn) (u : ℕ)
      → length c.read_buf ≡ L
      → c.checked_idx ≡ i
      → Ends (Still L i) (parse_version stray c u)
  unfolding parse_version
  Ends-parse_version stray c u len at = bind-any _ _ λ rest.
      Ends-option (find_space rest) _ _ (Ends-Still _ _ len at)
        λ n. search (stays, Ends-parse_target) depth 14

  pub Ends-parse_request_line :
      (stray : HttpCode) (c : HttpConn) (text : ℕ)
      → length c.read_buf ≡ L
      → c.checked_idx ≡ i
      → Ends (Still L i) (parse_request_line stray c text)
  unfolding parse_request_line
  Ends-parse_request_line stray c text len at = bind-any _ _ λ line.
      Ends-option (find_space line) _ _ (Ends-Still _ _ len at)
        λ n. search (stays, Ends-parse_version) depth 14

  pub Ends-parse_content :
      (c : HttpConn) (text : ℕ)
      → length c.read_buf ≡ L
      → c.checked_idx ≡ i
      → Ends (Still L i) (parse_content c text)
  unfolding parse_content
  Ends-parse_content c text len at = search stays depth 10

  done-if :
      {X : Type 0} (b : Bool) (l r : HttpConn × X)
      → Still L i l
      → Still L i r
      → Ends (Still L i) (done (if b then l else r))
  done-if true l r x y = ends x
  done-if false l r x y = ends y

  Ends-parse_field :
      (c : HttpConn) (text : ℕ) (line : List ℕ) (h : HeaderName)
      → length c.read_buf ≡ L
      → c.checked_idx ≡ i
      → Ends (Still L i) (parse_field c text line h >>= λ c'. done (c', no_request))
  unfolding parse_field
  Ends-parse_field c text line HeaderName.connection len at =
      elim (contains line (codes "keep-alive"))
        as (λ b.
          Ends (Still L i) (done ((if b then record c { linger = true } else c), no_request))) [
            | true ↦ ends (still len at)
            | false ↦ ends (still len at)
          ]
  Ends-parse_field c text line HeaderName.content_length len at =
      elim (stoi (leading_digits line))
        as (λ o.
          Ends (Still L i)
            ((o >>= λ n. done (record c { content_length = n })) >>= λ c'. done (c', no_request))) [
              | done n ↦ ends (still len at)
              | undefined ↦ breaks
              | terminated ↦ throws
            ]
  Ends-parse_field c text line HeaderName.host len at =
      elim (c_string c.read_buf (text + 5))
        as (λ o. Ends (Still L i) (
          (o >>= λ rest. done (record c { host = some (text + 5 + span_space rest) })) >>= λ c'.
          done (c', no_request))) [
            | done n ↦ ends (still len at)
            | undefined ↦ breaks
            | terminated ↦ throws
          ]

  pub Ends-parse_head :
      (c : HttpConn) (text : ℕ)
      → length c.read_buf ≡ L
      → c.checked_idx ≡ i
      → Ends (Still L i) (parse_head c text)
  unfolding parse_head
  Ends-parse_head c text len at = bind-any (c_string c.read_buf text) _ on_line
    where
      on_line :
          (line : List ℕ)
          → Ends (Still L i) (elim line [
            | [] ↦ done (
                if c.content_length == 0
                then (c, get_request)
                else (record c { check_status = content }, no_request))
            | b ∷ bs ↦ elim (search_header (b ∷ bs)) [
              | none ↦ done (c, no_request)
              | some h ↦ (parse_field c text (b ∷ bs) h >>= λ c'. done (c', no_request))
            ]
          ])
      on_line [] = done-if (c.content_length == 0) _ _ (still len at) (still len at)
      on_line (b ∷ bs) =
          Ends-option (search_header (b ∷ bs)) _ _ (Ends-Still _ _ len at)
            λ h. Ends-parse_field c text (b ∷ bs) h len at
