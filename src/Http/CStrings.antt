-- ===== src/Http/CStrings.antt =====
-- What the C library's string functions and `std::regex` do at the calls of
-- webserver/src/http_conn.cpp, over a buffer of bytes and offsets into it.
use my_tcp_cs.Base.{
  ℕ, ◌+◌, ◌-◌, ◌*◌, ◌^◌, Bool, true, false, ◌&&◌, ◌||◌, Option, none, some, List, [], ◌∷◌, Outcome,
  done, undefined, terminated, ◌>>=◌, ltb, leb, ◌==◌, if◌then◌else◌, length, drop, set, codes, cr,
  lf, blank, tab,
}

-- The bytes in front of the first NUL; without one the C++ code reads past the buffer.
unfoldable pub until_nul : List ℕ → Outcome (List ℕ)
until_nul [] = undefined
until_nul (b ∷ bs) = if b == 0 then done [] else (until_nul bs >>= λ s. done (b ∷ s))

-- The C string at an offset.
unfoldable pub c_string : List ℕ → ℕ → Outcome (List ℕ)
unfolding until_nul
c_string buf p = until_nul (drop p buf)

-- `buf[i] = v`
unfoldable pub poke : List ℕ → ℕ → ℕ → Outcome (List ℕ)
poke buf i v = if ltb i (length buf) then done (set buf i v) else undefined

-- How many bytes stand in front of the first '\r' or '\n', and the rest from there on.
unfoldable pub split_break : List ℕ → ℕ × List ℕ
split_break [] = (0, [])
split_break (b ∷ bs) =
    let (n, rest) = split_break bs in if (b == cr) || (b == lf) then (0, b ∷ bs) else (n + 1, rest)

abbrev pub crlf_at : ℕ × List ℕ → Option ℕ
crlf_at (n, []) = none
crlf_at (n, b ∷ []) = none
crlf_at (n, b ∷ d ∷ bs) = if (b == cr) && (d == lf) then some (n + 2) else none

abbrev byte_at : ℕ → ℕ × List ℕ → Option ℕ
byte_at v (n, []) = none
byte_at v (n, b ∷ bs) = if b == v then some (n + 1) else none

-- The length of the match of `^[^\r\n]*\r\n`.
unfoldable pub search_crlf : List ℕ → Option ℕ
unfolding split_break
search_crlf s = crlf_at (split_break s)

-- The length of the match of `^.*?\r`; a dot matches neither '\r' nor '\n'.
unfoldable pub search_cr : List ℕ → Option ℕ
unfolding split_break
search_cr s = byte_at cr (split_break s)

-- The length of the match of `^.*?\n`.
unfoldable pub search_lf : List ℕ → Option ℕ
unfolding split_break
search_lf s = byte_at lf (split_break s)

-- `strpbrk(s, " \t") - s`
unfoldable pub find_space : List ℕ → Option ℕ
find_space [] = none
find_space (b ∷ bs) =
    let rest = find_space bs in
    if (b == blank) || (b == tab) then some 0 else elim rest [ none ↦ none | some n ↦ some (n + 1) ]

-- `strchr(s, c) - s`
unfoldable pub find_byte : ℕ → List ℕ → Option ℕ
find_byte c [] = none
find_byte c (b ∷ bs) =
    let rest = find_byte c bs in
    if b == c then some 0 else elim rest [ none ↦ none | some n ↦ some (n + 1) ]

-- `strspn(s, " \t")`
unfoldable pub span_space : List ℕ → ℕ
span_space [] = 0
span_space (b ∷ bs) = let rest = span_space bs in if (b == blank) || (b == tab) then rest + 1 else 0

-- `tolower` of the C locale.
unfoldable pub to_lower : ℕ → ℕ
to_lower b = if leb b'A' b && leb b b'Z' then b + 32 else b

-- `strcasecmp(s, t) == 0`
unfoldable pub eq_no_case : List ℕ → List ℕ → Bool
unfolding to_lower
eq_no_case [] [] = true
eq_no_case [] (d ∷ ds) = false
eq_no_case (b ∷ bs) [] = false
eq_no_case (b ∷ bs) (d ∷ ds) = (to_lower b == to_lower d) && eq_no_case bs ds

-- `strncasecmp(s, t, strlen(t)) == 0`
unfoldable pub starts_no_case : List ℕ → List ℕ → Bool
unfolding to_lower
starts_no_case s [] = true
starts_no_case [] (d ∷ ds) = false
starts_no_case (b ∷ bs) (d ∷ ds) = (to_lower b == to_lower d) && starts_no_case bs ds

unfoldable pub starts_with : List ℕ → List ℕ → Bool
starts_with s [] = true
starts_with [] (d ∷ ds) = false
starts_with (b ∷ bs) (d ∷ ds) = (b == d) && starts_with bs ds

-- A search of a regular expression that is plain text.
unfoldable pub contains : List ℕ → List ℕ → Bool
unfolding starts_with
contains [] t = starts_with [] t
contains (b ∷ bs) t = starts_with (b ∷ bs) t || contains bs t

pub data HeaderName : Type 0 where
  connection content_length host : HeaderName

-- The header name at the front of `s`, if one of the three stands there.
unfoldable pub header_name : List ℕ → Option HeaderName
unfolding starts_with
header_name s =
    if starts_with s (codes "Connection:")
    then some connection
    else if starts_with s (codes "Content-Length:")
    then some content_length
    else if starts_with s (codes "Host:")
    then some host
    else none

-- `result[0]` of a search of `(Connection|Content-Length|Host):`, the leftmost match.
unfoldable pub search_header : List ℕ → Option HeaderName
unfolding header_name
search_header [] = none
search_header (b ∷ bs) =
    let rest = search_header bs in elim (header_name (b ∷ bs)) [ some h ↦ some h | none ↦ rest ]

unfoldable pub is_digit : ℕ → Bool
is_digit b = leb b'0' b && leb b b'9'

-- `result[0]` of a search of `[0-9]*`: it matches at once, if only the empty text.
unfoldable pub leading_digits : List ℕ → List ℕ
unfolding is_digit
leading_digits [] = []
leading_digits (b ∷ bs) = let rest = leading_digits bs in if is_digit b then b ∷ rest else []

unfoldable pub digits_value : ℕ → List ℕ → ℕ
digits_value acc [] = acc
digits_value acc (b ∷ bs) = digits_value (acc * 10 + (b - b'0')) bs

-- `stoi` of a text of digits: it throws on no digit and above INT_MAX.
unfoldable pub stoi : List ℕ → Outcome ℕ
unfolding digits_value
stoi [] = terminated
stoi (b ∷ bs) = let n = digits_value 0 (b ∷ bs) in if ltb n (2 ^ 31) then done n else terminated
