-- ===== src/Http/Target.antt =====
-- The file that `Do_Response` of webserver/src/http_conn.cpp looks at.
use mathlib.Core.List.{append_assoc, append-nil}
use my_tcp_cs.Base.{
  ℕ, ◌-◌, ◌≡◌, refl, ◌∙◌, ap, subst, Bool, true, false, ◌&&◌, none, some, List, [], ◌∷◌, ◌++◌, done,
  zero, suc, ltb, ◌==◌, length, take, drop, replicate, arith, Bool-cases, inl, inr,
}
use my_tcp_cs.Http.CStrings.{until_nul, c_string}
use my_tcp_cs.Http.Progress.Ending.{of_Ends, Ends, ends, breaks, Ends-bind}
use my_tcp_cs.Http.Lines.{bind-done}
use my_tcp_cs.Http.Types.{HttpConn, HttpCode, no_resource, doc_root, filename_len}
use my_tcp_cs.Http.Respond.{Files, strncpy, target_path, map_file, do_response}

-- No byte is NUL.
abbrev whole : List ℕ → Bool
whole [] = true
whole (b ∷ bs) = ltb 0 b && whole bs

until_nul-whole :
    (xs s t : List ℕ)
    → whole xs ≡ true
    → until_nul s ≡ done t
    → until_nul (xs ++ s) ≡ done (xs ++ t)
unfolding until_nul
until_nul-whole [] s t w e = e
until_nul-whole (b ∷ xs) s t w e =
    let some_byte : (b == 0) ≡ false = ground (arith, w) in
    rw (some_byte, until_nul-whole xs s t (ground (arith, w)) e) refl

whole-take : (n : ℕ) (xs : List ℕ) → whole xs ≡ true → whole (take n xs) ≡ true
whole-take zero xs w = refl
whole-take (suc n) [] w = refl
whole-take (suc n) (x ∷ xs) w = ground (arith, w, whole-take n xs)

until_nul-whole_text : (xs : List ℕ) → Ends (λ t. whole t ≡ true) (until_nul xs)
unfolding until_nul
until_nul-whole_text [] = breaks
until_nul-whole_text (b ∷ xs) = elim (Bool-cases (b == 0)) [
  | inl e ↦ rw e (ends refl)
  | inr e ↦ rw e (Ends-bind _ _ (until_nul-whole_text xs) λ t w. ends (ground (arith, e, w)))
]

c_string-whole : (buf : List ℕ) (u : ℕ) (t : List ℕ) → c_string buf u ≡ done t → whole t ≡ true
unfolding c_string
c_string-whole buf u t e =
    of_Ends t (subst (Ends (λ t. whole t ≡ true)) e (until_nul-whole_text (drop u buf)))

zeros-until_nul : (n : ℕ) → until_nul (replicate n 0 ++ 0 ∷ []) ≡ done []
unfolding until_nul
zeros-until_nul zero = refl
zeros-until_nul (suc n) = refl

-- The most bytes of a target that are used.
abbrev pub target_room : ℕ
target_room = filename_len - length doc_root - 1

-- The path that a target names: the target behind the document root, cut off where the buffer ends.
abbrev pub path_of : List ℕ → List ℕ
path_of target = doc_root ++ take target_room target

-- What `Do_Response` finds at a path.
abbrev pub response_at : Files → HttpConn → (path : List ℕ) → HttpConn × HttpCode
response_at fs c path = elim (fs.stat path) [
  | none ↦ (c, no_resource)
  | some st ↦ map_file fs (record c { real_file_stat = st }) path st
]

target_path-until_nul :
    (c : HttpConn) (target : List ℕ)
    → whole target ≡ true
    → drop (filename_len - 1) c.real_file ≡ 0 ∷ []
    → until_nul (target_path c target) ≡ done (path_of target)
unfolding target_path strncpy
target_path-until_nul c target w last =
    let t = take target_room target in
    let zeros = replicate (target_room - length target) 0 in
    let behind : until_nul ((t ++ zeros) ++ 0 ∷ []) ≡ done t = rw (append_assoc t zeros (0 ∷ [])) (
      until_nul-whole t (zeros ++ 0 ∷ []) [] (whole-take target_room target w)
        (zeros-until_nul (target_room - length target))
      ∙ ap done (append-nil t)) in
    rw last (until_nul-whole doc_root ((t ++ zeros) ++ 0 ∷ []) t refl behind)

-- With a target set, and the last byte of `m_real_file_` still NUL, as `Init` leaves it,
-- `Do_Response` looks at exactly one path: the target behind the document root, cut off at the end
-- of the buffer. It returns, and so reads nothing past `m_real_file_`.
pub do_response-path :
    (fs : Files) (c : HttpConn) (u : ℕ) (target : List ℕ)
    → c.url ≡ some u
    → c_string c.read_buf u ≡ done target
    → drop (filename_len - 1) c.real_file ≡ 0 ∷ []
    → do_response fs c
      ≡ done (response_at fs (record c { real_file = target_path c target }) (path_of target))
unfolding do_response
do_response-path fs c u target url text last =
    rw (url, text)
      (bind-done _ (target_path-until_nul c target (c_string-whole c.read_buf u target text) last))
