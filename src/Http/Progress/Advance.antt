-- ===== src/Http/Progress/Advance.antt =====
-- `Parse_Line` of webserver/src/http_conn.cpp moves `m_checked_idx_` on inside the buffer.
use my_tcp_cs.Base.{
  ℕ, ◌+◌, ◌-◌, ◌<◌, ◌≤◌, ◌≡◌, true, false, inl, inr, none, some, List, [], ◌∷◌, done, ◌>>=◌, ltb,
  ◌==◌, ◌&&◌, get_or, cr, if◌then◌else◌, length, Option-cases, arith,
}
use my_tcp_cs.Http.CStrings.{
  c_string, poke, split_break, crlf_at, search_crlf, search_cr, search_lf,
}
use my_tcp_cs.Http.Types.{HttpConn, LineStatus, line_ok, line_bad, line_open}
use my_tcp_cs.Http.Parse.{unparsed, lone_lf, parse_line}
use my_tcp_cs.Http.Progress.Ending.{
  Ends, ends, Ends-bind, Ends-if, Ends-any, Ends-option, Ends-poke, Ends-store,
}

-- What `Parse_Line` leaves of a connection with the buffer's length `L` and `m_checked_idx_` at
-- `i`.
pub data Advanced (L i : ℕ) : HttpConn × LineStatus → Type 0 where
  advanced :
      {c : HttpConn}
      → length c.read_buf ≡ L
      → i < c.checked_idx
      → c.checked_idx ≤ L
      → Advanced L i (c, line_ok)
  bad : {c : HttpConn} → Advanced L i (c, line_bad)
  open_end : {c : HttpConn} → Advanced L i (c, line_open)

crlf_at-positive : (p : ℕ × List ℕ) (n : ℕ) → crlf_at p ≡ some n → 0 < n
crlf_at-positive (k, []) n e = grind (arith, e)
crlf_at-positive (k, b ∷ []) n e = grind (arith, e)
crlf_at-positive (k, b ∷ d ∷ bs) n e = grind (arith, e)

search_crlf-positive : (s : List ℕ) (n : ℕ) → search_crlf s ≡ some n → 0 < n
unfolding search_crlf
search_crlf-positive s n e = crlf_at-positive (split_break s) n e

module _ {L i : ℕ} where
  Ends-lone_lf :
      (c : HttpConn) → length c.read_buf ≡ L → c.checked_idx ≡ i → Ends (Advanced L i) (lone_lf c)
  unfolding lone_lf
  Ends-lone_lf c len at =
      Ends-if (ltb 1 c.checked_idx && (get_or c.read_buf (c.checked_idx - 1) 0 == cr)) _ _
        (Ends-bind _ _ (Ends-poke c.read_buf (c.checked_idx - 1) 0 len) λ buf len₁.
          Ends-bind _ _ (Ends-store buf c.checked_idx 0 len₁)
            λ buf' p. ends (advanced p.0 (omega (arith, at)) (omega (arith, at, p.1))))
        (ends bad)

  pub Ends-parse_line :
      (c : HttpConn)
      → length c.read_buf ≡ L
      → c.checked_idx ≡ i
      → Ends (Advanced L i) (parse_line c)
  unfolding parse_line
  Ends-parse_line c len at =
      Ends-bind _ _ (Ends-any (c_string c.read_buf c.checked_idx)) λ text _. on_text text
    where
      stored :
          (slen : ℕ)
          → 0 < slen
          → Ends (Advanced L i) (do
            buf ← poke c.read_buf (c.checked_idx + slen - 2) 0
            buf' ← poke buf (c.checked_idx + slen - 1) 0
            done (record c { read_buf = buf'; checked_idx = c.checked_idx + slen }, line_ok))
      stored slen moves =
          Ends-bind _ _ (Ends-poke c.read_buf (c.checked_idx + slen - 2) 0 len) λ buf len₁.
            Ends-bind _ _ (Ends-store buf (c.checked_idx + slen - 1) 0 len₁)
              λ buf' p. ends (advanced p.0 (omega (arith, at)) (omega (arith, at, p.1)))

      on_text :
          (text : List ℕ)
          → Ends (Advanced L i) (elim (search_crlf text) [
            | some slen ↦ (do
              buf ← poke c.read_buf (c.checked_idx + slen - 2) 0
              buf' ← poke buf (c.checked_idx + slen - 1) 0
              done (record c { read_buf = buf'; checked_idx = c.checked_idx + slen }, line_ok))
            | none ↦ elim (search_cr text) [
              | some n ↦ done (c, if n == unparsed c then line_open else line_bad)
              | none ↦ elim (search_lf text) [ some n ↦ lone_lf c | none ↦ done (c, line_open) ]
            ]
          ])
      on_text text = elim (Option-cases (search_crlf text)) [
        | inr (slen, found) ↦ rw found (stored slen (search_crlf-positive text slen found))
        | inl no_crlf ↦ rw no_crlf (
            Ends-option (search_cr text) _ _
              (Ends-option (search_lf text) _ _ (ends open_end) λ _. Ends-lone_lf c len at)
              λ n.
                elim (n == unparsed c)
                  as (λ b. Ends (Advanced L i) (done (c, if b then line_open else line_bad))) [
                    | true ↦ ends open_end
                    | false ↦ ends bad
                  ])
      ]
