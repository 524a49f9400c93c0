-- ===== src/Http/RequestLine.antt =====
-- The request lines that `Parse_Request_Line` of webserver/src/http_conn.cpp accepts.
pub mod Words
use mathlib.Core.List.{append_assoc}
use my_tcp_cs.Base.{
  ℕ, ◌+◌, ◌≡◌, ◌≢◌, refl, sym, ◌∙◌, ap, Bool, true, some, List, [], ◌∷◌, ◌++◌, done, if◌then◌else◌,
  length, get_or, All, length-append, codes, blank, tab, arith, ==-ne, suc,
}
use my_tcp_cs.Http.CStrings.{until_nul, c_string, poke, find_space, eq_no_case, starts_no_case}
use my_tcp_cs.Http.Types.{HttpConn, HttpCode, header, get}
use my_tcp_cs.Http.Parse.{parse_target, strip_scheme, parse_version, parse_request_line}
use my_tcp_cs.Http.Lines.{bind-done, elim-some, drop-pre, poke-pre}
use my_tcp_cs.Http.RequestLine.Words.{
  Wordy, if-true, find_space-word, c_string-pre, until_nul-end, until_nul-two, shift, length-shift,
  poke-word, get_or-pre,
}

module _ (stray : HttpCode) (c : HttpConn) where
  parse_version-path :
      (pre path version rest : List ℕ) (u : ℕ)
      → c.read_buf ≡ pre ++ ((b'/' ∷ path) ++ blank ∷ (version ++ 0 ∷ rest))
      → u ≡ length pre
      → All Wordy path
      → All Wordy version
      → eq_no_case version (codes "HTTP/1.1") ≡ true
      → parse_version stray c u
        ≡ done (
          record c {
            read_buf = pre ++ ((b'/' ∷ path) ++ 0 ∷ (version ++ 0 ∷ rest));
            url = some u;
            version = some (u + length (b'/' ∷ path) + 1);
            check_status = header;
          },
          stray,
        )
  unfolding parse_version
  parse_version-path pre path version rest u buf at p v known =
      bind-done _ whole
      ∙ elim-some _ _ (find_space-word (b'/' ∷ path) version (slash, p))
      ∙ bind-done _ split
      ∙ bind-done _ last
      ∙ if-true _ _ _ known
      ∙ bind-done _ scheme
      ∙ good
    where
      slash : Wordy b'/'
      slash = record { not_nul = omega arith; not_blank = omega arith; not_tab = omega arith }

      whole : c_string c.read_buf u ≡ done ((b'/' ∷ path) ++ blank ∷ version)
      whole = rw buf (
          c_string-pre pre _ _ u at
            (until_nul-two (b'/' ∷ path) _ _ (slash, p) (until_nul-end version rest v)))

      cut : List ℕ
      cut = pre ++ ((b'/' ∷ path) ++ 0 ∷ (version ++ 0 ∷ rest))

      split : poke c.read_buf (u + length (b'/' ∷ path)) 0 ≡ done cut
      split = rw buf (poke-word pre (b'/' ∷ path) blank 0 _ _ (omega (arith, at)))

      last : c_string cut (u + length (b'/' ∷ path) + 1) ≡ done version
      last = rw (shift pre (b'/' ∷ path) 0 (version ++ 0 ∷ rest)) (
          c_string-pre (pre ++ ((b'/' ∷ path) ++ 0 ∷ [])) _ _ _
            (omega (arith, at, length-shift pre (b'/' ∷ path) 0)) (until_nul-end version rest v))

      scheme : strip_scheme cut u ≡ done (some u)
      scheme =
          unfold strip_scheme in
          bind-done _
            (c_string-pre pre _ (b'/' ∷ path) u at (until_nul-end (b'/' ∷ path) _ (slash, p)))
          ∙ (unfold starts_no_case in refl)

      good :
          parse_target stray
            (record c {
              read_buf = cut;
              url = some u;
              version = some (u + length (b'/' ∷ path) + 1);
            })
            (some u)
          ≡ done (
            record c {
              read_buf = cut;
              url = some u;
              version = some (u + length (b'/' ∷ path) + 1);
              check_status = header;
            },
            stray,
          )
      good =
          unfold parse_target in
          rw (at, get_or-pre pre b'/' (path ++ 0 ∷ (version ++ 0 ∷ rest))) refl

module _ (stray : HttpCode) (c : HttpConn) where
  -- A request line whose method is GET, whose target begins with a slash and whose version is
  -- HTTP/1.1, with one blank between them, is taken apart: the blanks become NULs, `m_url_` and
  -- `m_version_` point behind them, and the headers come next. Its result is not determined by
  -- the code.
  pub parse_request_line-accepts :
      (pre method path version rest : List ℕ)
      → c.read_buf ≡ pre ++ (method ++ blank ∷ ((b'/' ∷ path) ++ blank ∷ (version ++ 0 ∷ rest)))
      → All Wordy method
      → All Wordy path
      → All Wordy version
      → eq_no_case method (codes "GET") ≡ true
      → eq_no_case version (codes "HTTP/1.1") ≡ true
      → let u = length pre + length method + 1 in
        parse_request_line stray c (length pre)
        ≡ done (
          record c {
            read_buf = pre ++ (method ++ 0 ∷ ((b'/' ∷ path) ++ 0 ∷ (version ++ 0 ∷ rest)));
            method = get;
            url = some u;
            version = some (u + length (b'/' ∷ path) + 1);
            check_status = header;
          },
          stray,
        )
  unfolding parse_request_line
  parse_request_line-accepts pre method path version rest buf m p v is_get known =
      bind-done _ whole
      ∙ elim-some _ _ (find_space-word method _ m)
      ∙ bind-done _ split
      ∙ bind-done _ first
      ∙ if-true _ _ _ is_get
      ∙ behind
    where
      tail : List ℕ
      tail = (b'/' ∷ path) ++ blank ∷ (version ++ 0 ∷ rest)

      slash : Wordy b'/'
      slash = record { not_nul = omega arith; not_blank = omega arith; not_tab = omega arith }

      whole :
          c_string c.read_buf (length pre)
          ≡ done (method ++ blank ∷ ((b'/' ∷ path) ++ blank ∷ version))
      whole = rw buf (
          c_string-pre pre _ _ _ refl (
            until_nul-two method _ _ m
              (until_nul-two (b'/' ∷ path) _ _ (slash, p) (until_nul-end version rest v))))

      cut : List ℕ
      cut = pre ++ (method ++ 0 ∷ tail)

      split : poke c.read_buf (length pre + length method) 0 ≡ done cut
      split = rw buf (poke-word pre method blank 0 tail _ refl)

      first : c_string cut (length pre) ≡ done method
      first = c_string-pre pre _ _ _ refl (until_nul-end method tail m)

      u : ℕ
      u = length pre + length method + 1

      before : List ℕ
      before = pre ++ (method ++ 0 ∷ [])

      behind :
          parse_version stray (record c { read_buf = cut; url = some u; method = get }) u
          ≡ done (
            record c {
              read_buf = pre ++ (method ++ 0 ∷ ((b'/' ∷ path) ++ 0 ∷ (version ++ 0 ∷ rest)));
              method = get;
              url = some u;
              version = some (u + length (b'/' ∷ path) + 1);
              check_status = header;
            },
            stray,
          )
      behind =
          parse_version-path stray (record c { read_buf = cut; url = some u; method = get }) before
            path version rest u (shift pre method 0 tail) (sym (length-shift pre method 0)) p v
            known
          ∙ ap
              (λ b. done (
                record c {
                  read_buf = b;
                  method = get;
                  url = some u;
                  version = some (u + length (b'/' ∷ path) + 1);
                  check_status = header;
                },
                stray,
              ))
              (sym (shift pre method 0 ((b'/' ∷ path) ++ 0 ∷ (version ++ 0 ∷ rest))))
