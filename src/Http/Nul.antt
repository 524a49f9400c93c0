-- ===== src/Http/Nul.antt =====
-- The text that a C string in a buffer holds, in front of its NUL.
use my_tcp_cs.Base.{
  ℕ, ◌<◌, ◌≡◌, refl, ap, Bool, true, false, List, [], ◌∷◌, ◌++◌, All, done, ◌==◌, if◌then◌else◌,
  arith,
}
use my_tcp_cs.Http.CStrings.{until_nul}

-- The bytes in front of the first NUL, or all.
unfoldable pub text_of : List ℕ → List ℕ
text_of [] = []
text_of (b ∷ bs) = if b == 0 then [] else b ∷ text_of bs

pub until_nul-text_of : (bs rest : List ℕ) → until_nul (bs ++ 0 ∷ rest) ≡ done (text_of bs)
unfolding until_nul text_of
until_nul-text_of [] rest = refl
until_nul-text_of (b ∷ bs) rest = rw (until_nul-text_of bs rest) (over (b == 0))
  where
    over :
        (z : Bool)
        → (if z then done [] else done (b ∷ text_of bs)) ≡ done (if z then [] else b ∷ text_of bs)
    over true = refl
    over false = refl

-- Bytes with no NUL among them.
abbrev pub NonNul : List ℕ → Type 0
NonNul = All (λ b. 0 < b)

pub text_of-NonNul : (bs : List ℕ) → NonNul bs → text_of bs ≡ bs
unfolding text_of
text_of-NonNul [] h = refl
text_of-NonNul (b ∷ bs) h =
    let not_zero : (b == 0) ≡ false = ground (arith, h.0) in
    rw not_zero (ap (◌∷◌ b) (text_of-NonNul bs h.1))

pub NonNul-parts : (xs ys : List ℕ) → NonNul (xs ++ ys) → NonNul xs × NonNul ys
NonNul-parts [] ys h = (tt, h)
NonNul-parts (x ∷ xs) ys h = let (l, r) = NonNul-parts xs ys h.1 in ((h.0, l), r)
