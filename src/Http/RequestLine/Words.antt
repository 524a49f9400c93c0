-- ===== src/Http/RequestLine/Words.antt =====
-- The words of a request line in the read buffer of webserver/src/http_conn.cpp.
use mathlib.Core.List.{append_assoc}
use my_tcp_cs.Base.{
  ℕ, ◌+◌, ◌≡◌, ◌≢◌, refl, sym, ◌∙◌, ap, Bool, true, some, List, [], ◌∷◌, ◌++◌, done, if◌then◌else◌,
  length, get_or, All, length-append, blank, tab, arith, ==-ne, suc,
}
use my_tcp_cs.Http.CStrings.{until_nul, c_string, poke, find_space}
use my_tcp_cs.Http.Lines.{drop-pre, poke-pre}

-- A byte of a word: no NUL, no blank and no tab.
pub record Wordy (b : ℕ) : Type 0 where
  pub not_nul : b ≢ 0
  pub not_blank : b ≢ blank
  pub not_tab : b ≢ tab

pub if-true {ℓ} : {A : Type ℓ} (b : Bool) (x y : A) → b ≡ true → (if b then x else y) ≡ x
if-true b x y e = rw e refl

until_nul-word :
    (w s t : List ℕ) → All Wordy w → until_nul s ≡ done t → until_nul (w ++ s) ≡ done (w ++ t)
unfolding until_nul
until_nul-word [] s t word e = e
until_nul-word (b ∷ w) s t word e =
    rw (==-ne b 0 word.0.not_nul, until_nul-word w s t word.1 e) refl

pub find_space-word : (w s : List ℕ) → All Wordy w → find_space (w ++ blank ∷ s) ≡ some (length w)
unfolding find_space
find_space-word [] s word = refl
find_space-word (b ∷ w) s word =
    rw (==-ne b blank word.0.not_blank, ==-ne b tab word.0.not_tab, find_space-word w s word.1)
      (ap some (let e : length w + 1 ≡ suc (length w) = omega arith in e))

-- The C string behind `pre`.
pub c_string-pre :
    (pre xs s : List ℕ) (i : ℕ)
    → i ≡ length pre
    → until_nul xs ≡ done s
    → c_string (pre ++ xs) i ≡ done s
unfolding c_string
c_string-pre pre xs s i at e = rw (at, drop-pre pre xs) e

append-nil_end : (w : List ℕ) → w ++ [] ≡ w
append-nil_end [] = refl
append-nil_end (b ∷ w) = ap (◌∷◌ b) (append-nil_end w)

pub until_nul-end : (w s : List ℕ) → All Wordy w → until_nul (w ++ 0 ∷ s) ≡ done w
until_nul-end w s word =
    until_nul-word w (0 ∷ s) [] word (unfold until_nul in refl) ∙ ap done (append-nil_end w)

-- A word, a blank and a word that a NUL ends.
pub until_nul-two :
    (w v s : List ℕ)
    → All Wordy w
    → until_nul s ≡ done v
    → until_nul (w ++ blank ∷ s) ≡ done (w ++ blank ∷ v)
until_nul-two w v s word e = until_nul-word w _ _ word (unfold until_nul in rw e refl)

pub shift : (p w : List ℕ) (x : ℕ) (t : List ℕ) → p ++ (w ++ x ∷ t) ≡ (p ++ (w ++ x ∷ [])) ++ t
shift p w x t =
    ap (λ r. p ++ r) (sym (append_assoc w (x ∷ []) t)) ∙ sym (append_assoc p (w ++ x ∷ []) t)

pub length-shift : (p w : List ℕ) (x : ℕ) → length (p ++ (w ++ x ∷ [])) ≡ length p + length w + 1
length-shift p w x = omega (arith, length-append p (w ++ x ∷ []), length-append w (x ∷ []))

pub poke-word :
    (p w : List ℕ) (x v : ℕ) (t : List ℕ) (i : ℕ)
    → i ≡ length p + length w
    → poke (p ++ (w ++ x ∷ t)) i v ≡ done (p ++ (w ++ v ∷ t))
poke-word p w x v t i at =
    rw (sym (append_assoc p w (x ∷ t)), sym (append_assoc p w (v ∷ t)))
      (poke-pre (p ++ w) x t i v (omega (arith, at, length-append p w)))

pub get_or-pre : (p : List ℕ) (x : ℕ) (t : List ℕ) → get_or (p ++ x ∷ t) (length p) 0 ≡ x
get_or-pre [] x t = refl
get_or-pre (y ∷ p) x t = get_or-pre p x t
