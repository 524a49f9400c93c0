-- ===== src/Http/Fields.antt =====
-- The header lines that `Parse_Head` of webserver/src/http_conn.cpp reads over, and what it keeps
-- of them.
use my_tcp_cs.Base.{
  ℕ, zero, suc, ◌+◌, ◌≤◌, ◌≡◌, ◌≢◌, refl, sym, ◌∙◌, ap, Bool, true, false, ◌||◌, Option, none, some,
  List, [], ◌∷◌, Outcome, done, undefined, terminated, ◌>>=◌, ◌==◌, if◌then◌else◌, length, drop,
  codes, arith, Option-cases, inl, inr,
}
use my_tcp_cs.Http.CStrings.{
  until_nul, c_string, starts_with, contains, header_name, search_header, HeaderName, span_space,
}
use my_tcp_cs.Http.Types.{HttpConn, HttpCode, no_request}
use my_tcp_cs.Http.Parse.{parse_field, parse_head}
use my_tcp_cs.Http.Lines.{bind-done, elim-some}

length-starts_with : (s t : List ℕ) → starts_with s t ≡ true → length t ≤ length s
unfolding starts_with
length-starts_with s [] e = omega arith
length-starts_with [] (d ∷ ds) e = cc
length-starts_with (b ∷ bs) (d ∷ ds) e = ground (arith, e, length-starts_with bs ds)

header_name-host :
    (s : List ℕ) → header_name s ≡ some HeaderName.host → starts_with s (codes "Host:") ≡ true
unfolding header_name
header_name-host s e = ground (arith, e)

-- A line in which "Host:" is found has room for it.
search_header-host : (s : List ℕ) → search_header s ≡ some HeaderName.host → 5 ≤ length s
unfolding search_header
search_header-host [] e = cc
search_header-host (b ∷ bs) e = elim (Option-cases (header_name (b ∷ bs))) [
  | inl gone ↦ omega (arith, search_header-host bs (rw (gone, search_header) at e))
  | inr (h, here) ↦
      length-starts_with (b ∷ bs) (codes "Host:")
        (header_name-host (b ∷ bs) (here ∙ (rw (here, search_header) at e)))
]

done-injective : {a b : List ℕ} → done a ≡ done b → a ≡ b
done-injective e = cc

-- A C string read from further on.
until_nul-drop :
    (xs t : List ℕ) (n : ℕ)
    → until_nul xs ≡ done t
    → n ≤ length t
    → until_nul (drop n xs) ≡ done (drop n t)
unfolding until_nul
until_nul-drop xs t zero e room = e
until_nul-drop [] t (suc n) e room = cc
until_nul-drop (b ∷ xs) t (suc n) e room =
    at (b == 0) (until_nul xs) refl e (λ t' e' room'. until_nul-drop xs t' n e' room')
  where
    at :
        (nul : Bool) (o : Outcome (List ℕ))
        → until_nul xs ≡ o
        → (if nul then done [] else (o >>= λ s. done (b ∷ s))) ≡ done t
        → ((t' : List ℕ)
            → until_nul xs ≡ done t'
            → n ≤ length t'
            → until_nul (drop n xs) ≡ done (drop n t'))
        → until_nul (drop n xs) ≡ done (drop (suc n) t)
    at true o e f rec = absurd (omega (arith, room, ap length (sym (done-injective f))))
    at false (done t') e f rec =
        let same : b ∷ t' ≡ t = done-injective f in
        rec t' e (omega (arith, room, ap length same)) ∙ ap (λ l. done (drop (suc n) l)) same
    at false undefined e f rec = cc
    at false terminated e f rec = cc

drop-add : (m n : ℕ) (xs : List ℕ) → drop (m + n) xs ≡ drop n (drop m xs)
drop-add zero n xs = let e : 0 + n ≡ n = omega arith in rw e refl
drop-add (suc m) zero [] = let e : suc m + 0 ≡ suc m = omega arith in rw e refl
drop-add (suc m) (suc n) [] = let e : suc m + suc n ≡ suc (m + suc n) = omega arith in rw e refl
drop-add (suc m) n (x ∷ xs) =
    let e : suc m + n ≡ suc (m + n) = omega arith in rw e (drop-add m n xs)

c_string-further :
    (buf : List ℕ) (i n : ℕ) (t : List ℕ)
    → c_string buf i ≡ done t
    → n ≤ length t
    → c_string buf (i + n) ≡ done (drop n t)
unfolding c_string
c_string-further buf i n t e room = rw (drop-add i n buf) (until_nul-drop (drop i buf) t n e room)

-- A header line that asks to keep the connection.
unfoldable pub keeps_alive : List ℕ → Bool
keeps_alive line = elim (search_header line) [
  | some HeaderName.connection ↦ contains line (codes "keep-alive")
  | _ ↦ false
]

-- What a header line leaves: all but `m_linger_`, `m_host_` and `m_content_length_` stays.
pub record SameButFields (c c' : HttpConn) : Type 0 where
  pub read_buf : c'.read_buf ≡ c.read_buf
  pub read_idx : c'.read_idx ≡ c.read_idx
  pub checked_idx : c'.checked_idx ≡ c.checked_idx
  pub start_of_line : c'.start_of_line ≡ c.start_of_line
  pub check_status : c'.check_status ≡ c.check_status
  pub url : c'.url ≡ c.url
  pub real_file : c'.real_file ≡ c.real_file
  pub write_buf : c'.write_buf ≡ c.write_buf

elim-none {ℓ} :
    {A B : Type ℓ} {o : Option A} (n : B) (k : A → B)
    → o ≡ none
    → elim o [ none ↦ n | some x ↦ k x ] ≡ n
elim-none n k e = ap (λ o. elim o [ none ↦ n | some x ↦ k x ]) e

SameButFields-set :
    (c : HttpConn) (h : Option ℕ) (l : Bool) → SameButFields c (record c { host = h; linger = l })
SameButFields-set c h l = record {
  read_buf = refl;
  read_idx = refl;
  checked_idx = refl;
  start_of_line = refl;
  check_status = refl;
  url = refl;
  real_file = refl;
  write_buf = refl;
}

abbrev with_linger : Bool → HttpConn → HttpConn
with_linger asked c = if asked then record c { linger = true } else c

SameButFields-with_linger : (asked : Bool) (c : HttpConn) → SameButFields c (with_linger asked c)
SameButFields-with_linger true c = SameButFields-set c c.host true
SameButFields-with_linger false c = SameButFields-set c c.host c.linger

linger-with_linger :
    (asked : Bool) (c : HttpConn) → (with_linger asked c).linger ≡ (c.linger || asked)
linger-with_linger true c = ground arith
linger-with_linger false c = ground arith

content_length-with_linger :
    (asked : Bool) (c : HttpConn) → (with_linger asked c).content_length ≡ c.content_length
content_length-with_linger true c = refl
content_length-with_linger false c = refl

abbrev bound : Outcome HttpConn → Outcome (HttpConn × HttpCode)
bound o = o >>= λ c'. done (c', no_request)

parse_field-host :
    (c : HttpConn) (text : ℕ) (line rest : List ℕ)
    → c_string c.read_buf (text + 5) ≡ done rest
    → bound (parse_field c text line HeaderName.host)
      ≡ done (record c { host = some (text + 5 + span_space rest) }, no_request)
unfolding parse_field
parse_field-host c text line rest e = rw e refl

-- A header line without "Content-Length:" is read over; only the keep-alive flag and the host may
-- change, and the flag is set exactly by a line that asks for it.
pub parse_head-field :
    (c : HttpConn) (text b : ℕ) (bs : List ℕ)
    → c_string c.read_buf text ≡ done (b ∷ bs)
    → search_header (b ∷ bs) ≢ some HeaderName.content_length
    → (c' : HttpConn) × (parse_head c text ≡ done (c', no_request))
      × SameButFields c c'
      × (c'.linger ≡ (c.linger || keeps_alive (b ∷ bs)))
      × (c'.content_length ≡ c.content_length)
unfolding parse_head parse_field keeps_alive
parse_head-field c text b bs line other = found (search_header (b ∷ bs)) refl
  where
    found :
        (o : Option HeaderName)
        → search_header (b ∷ bs) ≡ o
        → (c' : HttpConn) × (parse_head c text ≡ done (c', no_request))
          × SameButFields c c'
          × (c'.linger ≡ (c.linger || keeps_alive (b ∷ bs)))
          × (c'.content_length ≡ c.content_length)
    found none e = (
      c,
      bind-done _ line ∙ elim-none _ _ e,
      SameButFields-set c c.host c.linger,
      rw (e, keeps_alive) (ground arith),
      refl,
    )
    found (some HeaderName.connection) e =
        let asked = contains (b ∷ bs) (codes "keep-alive") in
        (
          with_linger asked c,
          bind-done _ line ∙ elim-some _ _ e,
          SameButFields-with_linger asked c,
          rw (e, keeps_alive) (linger-with_linger asked c),
          content_length-with_linger asked c,
        )
    found (some HeaderName.content_length) e = absurd (other e)
    found (some HeaderName.host) e =
        let rest : c_string c.read_buf (text + 5) ≡ done (drop 5 (b ∷ bs)) =
          c_string-further c.read_buf text 5 (b ∷ bs) line (search_header-host (b ∷ bs) e) in
        (
          record c { host = some (text + 5 + span_space (drop 5 (b ∷ bs))) },
          bind-done _ line
              ∙ elim-some _ _ e
              ∙ parse_field-host c text (b ∷ bs) (drop 5 (b ∷ bs)) rest,
          SameButFields-set c _ c.linger,
          rw (e, keeps_alive) (ground arith),
          refl,
        )
