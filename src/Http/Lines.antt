-- ===== src/Http/Lines.antt =====
-- What `Parse_Line` and `Parse_Head` of webserver/src/http_conn.cpp do with the lines of a request.
use mathlib.Core.List.{append_assoc}
use my_tcp_cs.Base.{
  ℕ, suc, ◌+◌, ◌-◌, ◌≡◌, ◌≢◌, refl, sym, ◌∙◌, ap, true, false, List, [], ◌∷◌, ◌++◌, Outcome, done,
  terminated, ◌>>=◌, ltb, length, set, drop, All, length-append, cr, lf, arith, ==-ne, Option, none,
  some,
}
use my_tcp_cs.Http.CStrings.{
  until_nul, c_string, poke, split_break, search_crlf, is_digit, leading_digits, stoi,
  search_header, HeaderName,
}
use my_tcp_cs.Http.Types.{HttpConn, line_ok}
use my_tcp_cs.Http.Parse.{parse_line, parse_field, parse_head}

-- A byte that may stand in a line: no '\r', no '\n' and no NUL.
pub record Plain (b : ℕ) : Type 0 where
  pub not_nul : b ≢ 0
  pub not_cr : b ≢ cr
  pub not_lf : b ≢ lf

pub bind-done {ℓ} :
    {A B : Type ℓ} {o : Outcome A} {a : A} (k : A → Outcome B) → o ≡ done a → (o >>= k) ≡ k a
bind-done k e = ap (λ o. o >>= k) e

pub elim-some {ℓ} :
    {A B : Type ℓ} {o : Option A} {a : A} (n : B) (k : A → B)
    → o ≡ some a
    → elim o [ none ↦ n | some x ↦ k x ] ≡ k a
elim-some n k e = ap (λ o. elim o [ none ↦ n | some x ↦ k x ]) e

pub until_nul-append :
    (line s t : List ℕ)
    → All Plain line
    → until_nul s ≡ done t
    → until_nul (line ++ s) ≡ done (line ++ t)
unfolding until_nul
until_nul-append [] s t plain e = e
until_nul-append (b ∷ line) s t plain e =
    rw (==-ne b 0 plain.0.not_nul, until_nul-append line s t plain.1 e) refl

split_break-append :
    (line t : List ℕ) → All Plain line → split_break (line ++ cr ∷ t) ≡ (length line, cr ∷ t)
unfolding split_break
split_break-append [] t plain = refl
split_break-append (b ∷ line) t plain =
    rw (==-ne b cr plain.0.not_cr, ==-ne b lf plain.0.not_lf, split_break-append line t plain.1)
      (let e : length line + 1 ≡ suc (length line) = omega arith in rw e refl)

pub drop-pre : (pre xs : List ℕ) → drop (length pre) (pre ++ xs) ≡ xs
drop-pre [] xs = refl
drop-pre (x ∷ pre) xs = drop-pre pre xs

set-pre :
    (pre : List ℕ) (x : ℕ) (xs : List ℕ) (v : ℕ)
    → set (pre ++ x ∷ xs) (length pre) v ≡ pre ++ v ∷ xs
set-pre [] x xs v = refl
set-pre (y ∷ pre) x xs v = ap (◌∷◌ y) (set-pre pre x xs v)

-- A store at the byte behind `pre`.
pub poke-pre :
    (pre : List ℕ) (x : ℕ) (xs : List ℕ) (i v : ℕ)
    → i ≡ length pre
    → poke (pre ++ x ∷ xs) i v ≡ done (pre ++ v ∷ xs)
unfolding poke
poke-pre pre x xs i v e =
    let inside : ltb i (length (pre ++ x ∷ xs)) ≡ true =
      grind (arith, e, length-append pre (x ∷ xs)) in
    rw (inside, e, set-pre pre x xs v) refl

until_nul-line :
    (line rest tail : List ℕ)
    → All Plain line
    → until_nul rest ≡ done tail
    → until_nul (line ++ cr ∷ lf ∷ rest) ≡ done (line ++ cr ∷ lf ∷ tail)
until_nul-line line rest tail plain ends =
    until_nul-append line _ _ plain (unfold until_nul in rw ends refl)

parse_line-found :
    (c : HttpConn) (text : List ℕ) (n : ℕ)
    → c_string c.read_buf c.checked_idx ≡ done text
    → search_crlf text ≡ some n
    → parse_line c ≡ (do
      buf ← poke c.read_buf (c.checked_idx + n - 2) 0
      buf' ← poke buf (c.checked_idx + n - 1) 0
      done (record c { read_buf = buf'; checked_idx = c.checked_idx + n }, line_ok))
unfolding parse_line
parse_line-found c text n line found = bind-done _ line ∙ elim-some _ _ found

-- A line that ends in CR LF, with neither of the two nor a NUL before, is found: `m_checked_idx_`
-- moves behind it, the CR and the LF become NULs, and every other byte stays. The buffer has a NUL
-- behind the line.
pub parse_line-crlf :
    (c : HttpConn) (pre line rest tail : List ℕ)
    → c.read_buf ≡ pre ++ (line ++ cr ∷ lf ∷ rest)
    → c.checked_idx ≡ length pre
    → All Plain line
    → until_nul rest ≡ done tail
    → parse_line c
      ≡ done (
        record c {
          read_buf = pre ++ (line ++ 0 ∷ 0 ∷ rest);
          checked_idx = length pre + length line + 2;
        },
        line_ok,
      )
parse_line-crlf c pre line rest tail buf at plain ends =
    parse_line-found c (line ++ cr ∷ lf ∷ tail) (length line + 2) here crlf
    ∙ bind-done _ first
    ∙ bind-done _ second
    ∙ ap
        (λ n.
          done (record c { read_buf = pre ++ (line ++ 0 ∷ 0 ∷ rest); checked_idx = n }, line_ok))
        (omega (arith, at))
  where
    here : c_string c.read_buf c.checked_idx ≡ done (line ++ cr ∷ lf ∷ tail)
    here =
        unfold c_string in
        rw (buf, at, drop-pre pre (line ++ cr ∷ lf ∷ rest))
          (until_nul-line line rest tail plain ends)

    split : (x y : ℕ) → pre ++ (line ++ x ∷ y ∷ rest) ≡ (pre ++ line) ++ x ∷ y ∷ rest
    split x y = sym (append_assoc pre line (x ∷ y ∷ rest))

    further : (x : ℕ) → pre ++ (line ++ 0 ∷ x ∷ rest) ≡ ((pre ++ line) ++ 0 ∷ []) ++ x ∷ rest
    further x = split 0 x ∙ sym (append_assoc (pre ++ line) (0 ∷ []) (x ∷ rest))

    first :
        poke c.read_buf (c.checked_idx + (length line + 2) - 2) 0
        ≡ done (pre ++ (line ++ 0 ∷ lf ∷ rest))
    first =
        rw (buf, split cr lf, split 0 lf)
          (poke-pre (pre ++ line) cr (lf ∷ rest) _ 0 (omega (arith, at, length-append pre line)))

    second :
        poke (pre ++ (line ++ 0 ∷ lf ∷ rest)) (c.checked_idx + (length line + 2) - 1) 0
        ≡ done (pre ++ (line ++ 0 ∷ 0 ∷ rest))
    second =
        rw (further lf, further 0)
          (poke-pre ((pre ++ line) ++ 0 ∷ []) lf rest _ 0
            (omega (arith, at, length-append pre line, length-append (pre ++ line) (0 ∷ []))))

    crlf : search_crlf (line ++ cr ∷ lf ∷ tail) ≡ some (length line + 2)
    crlf = unfold search_crlf in rw (split_break-append line (lf ∷ tail) plain) refl

-- A header line whose leftmost header name is "Content-Length:" and that does not begin with a
-- digit ends the process: the search of `[0-9]*` matches the empty text at the front of the line,
-- and `stoi` throws.
pub parse_head-content_length :
    (c : HttpConn) (text b : ℕ) (bs : List ℕ)
    → c_string c.read_buf text ≡ done (b ∷ bs)
    → search_header (b ∷ bs) ≡ some HeaderName.content_length
    → is_digit b ≡ false
    → parse_head c text ≡ terminated
unfolding parse_head parse_field leading_digits stoi
parse_head-content_length c text b bs line name letter =
    bind-done _ line ∙ elim-some _ _ name ∙ rw letter refl
