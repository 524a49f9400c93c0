-- ===== src/HalfClose/Texts.antt =====
-- One message after the other in the buffer of servertest.cpp.
use my_tcp_cs.Base.{
  ℕ, ◌-◌, ◌≤◌, ◌<◌, ◌≡◌, ◌⊎◌, refl, sym, ◌∙◌, ap, inl, inr, true, false, Option, none, some, List,
  [], ◌∷◌, ◌++◌, map, All, Outcome, done, undefined, ◌>>=◌, ltb, length, length-append, length-drop,
  length-set, drop, set, arith,
}
use my_tcp_cs.Http.CStrings.{until_nul, poke}
use my_tcp_cs.Http.Nul.{text_of, until_nul-text_of}
use my_tcp_cs.Http.Lines.{bind-done}
use my_tcp_cs.Echo.{Read, got, read_failed}
use my_tcp_cs.HalfClose.{max_line, fill, ended, receive}

set-end : (bs : List ℕ) (r : ℕ) (rs : List ℕ) → set (bs ++ r ∷ rs) (length bs) 0 ≡ bs ++ 0 ∷ rs
set-end [] r rs = refl
set-end (b ∷ bs) r rs = ap (◌∷◌ b) (set-end bs r rs)

set-text :
    (bs rest : List ℕ)
    → 0 < length rest
    → until_nul (set (bs ++ rest) (length bs) 0) ≡ done (text_of bs)
set-text bs [] h = absurd (omega (arith, h))
set-text bs (r ∷ rs) h = ap until_nul (set-end bs r rs) ∙ until_nul-text_of bs rs

-- The buffer behind a message that leaves room for its end.
abbrev pub after : (buf bs : List ℕ) → List ℕ
after buf bs = set (bs ++ drop (length bs) buf) (length bs) 0

module _ (buf bs : List ℕ) (room : length bs < length buf) where
  left : length (drop (length bs) buf) ≡ length buf - length bs
  left = length-drop (length bs) buf

  pub ended-text : ended (bs ++ drop (length bs) buf) (length bs) ≡ done (after buf bs, text_of bs)
  unfolding ended poke
  ended-text =
      let inside : ltb (length bs) (length (bs ++ drop (length bs) buf)) ≡ true =
        ground (arith, left, length-append bs (drop (length bs) buf), room) in
      rw inside (bind-done _ (set-text bs (drop (length bs) buf) (omega (arith, left, room))))

  pub length-after : length (after buf bs) ≡ length buf
  length-after =
      length-set (bs ++ drop (length bs) buf) (length bs) 0
      ∙ omega (arith, left, room, length-append bs (drop (length bs) buf))

-- What one `read` of the server may bring without harm.
pub record Portion (bs : List ℕ) : Type 0 where
  pub some_there : 0 < length bs
  pub short : length bs < max_line

pub fill-short :
    (limit : ℕ) (buf bs : List ℕ)
    → length bs ≤ limit
    → length bs ≤ length buf
    → fill limit buf bs ≡ done (bs ++ drop (length bs) buf)
unfolding fill
fill-short limit buf bs h h' = ground (arith, h, h')

receive-Portion :
    (buf bs : List ℕ) (rs : List Read) (o : Outcome (Option (List (List ℕ))))
    → length buf ≡ max_line
    → (p : Portion bs) → receive (after buf bs) rs ≡ o
    → receive buf (got bs ∷ rs)
      ≡ (o >>= λ rest. done (elim rest [ none ↦ none | some texts ↦ some (text_of bs ∷ texts) ]))
unfolding receive
receive-Portion buf [] rs o len p e = absurd (omega (arith, p.some_there))
receive-Portion buf (b ∷ bs) rs o len p e =
    bind-done _
      (fill-short max_line buf (b ∷ bs) (omega (arith, p.short)) (omega (arith, p.short, len)))
    ∙ bind-done _ (ended-text buf (b ∷ bs) (omega (arith, p.short, len)))
    ∙ ap
        (λ r. r >>= λ rest. done (elim rest as (λ x. Option (List (List ℕ))) [
          | none ↦ none
          | some texts ↦ some (text_of (b ∷ bs) ∷ texts)
        ]))
        e

-- A `read` that ends the server's loop.
abbrev pub EndsLoop : Read → Type 0
EndsLoop r = (r ≡ got []) ⊎ (r ≡ read_failed)

pub receive-end :
    (buf : List ℕ) (r : Read) (rs : List Read) → EndsLoop r → receive buf (r ∷ rs) ≡ done (some [])
unfolding receive
receive-end buf r rs (inl e) = rw (receive, e) refl
receive-end buf r rs (inr e) = rw (receive, e) refl

pub receive-portions :
    (buf : List ℕ) (portions : List (List ℕ)) (rs : List Read) (texts : List (List ℕ))
    → length buf ≡ max_line
    → All Portion portions
    → ((buf' : List ℕ) → length buf' ≡ max_line → receive buf' rs ≡ done (some texts))
    → receive buf (map got portions ++ rs) ≡ done (some (map text_of portions ++ texts))
receive-portions buf [] rs texts len a h = h buf len
receive-portions buf (bs ∷ portions) rs texts len a h =
    receive-Portion buf bs (map got portions ++ rs) _ len a.0 (
      receive-portions (after buf bs) portions rs texts
        (length-after buf bs (omega (arith, a.0.short, len)) ∙ len) a.1 h)

ended-out :
    (buf bs : List ℕ)
    → length bs ≡ length buf
    → ended (bs ++ drop (length bs) buf) (length bs) ≡ undefined
unfolding ended poke
ended-out buf bs h =
    let outside : ltb (length bs) (length (bs ++ drop (length bs) buf)) ≡ false =
      ground (arith, length-append bs (drop (length bs) buf), length-drop (length bs) buf, h) in
    rw outside refl

pub bind_undefined :
    {A B : Type 0} {o : Outcome A} (k : A → Outcome B) → o ≡ undefined → (o >>= k) ≡ undefined
bind_undefined k e = ap (λ r. r >>= k) e

pub receive-overrun :
    (buf : List ℕ) (portions : List (List ℕ)) (bs : List ℕ) (rs : List Read)
    → length buf ≡ max_line
    → All Portion portions
    → length bs ≡ max_line
    → receive buf (map got portions ++ got bs ∷ rs) ≡ undefined
unfolding receive fill ended poke
receive-overrun buf [] [] rs len a whole = absurd (omega (arith, whole))
receive-overrun buf [] (b ∷ bs) rs len a whole =
    bind-done _
      (fill-short max_line buf (b ∷ bs) (omega (arith, whole)) (omega (arith, whole, len)))
    ∙ bind_undefined _ (ended-out buf (b ∷ bs) (whole ∙ sym len))
receive-overrun buf (p ∷ portions) bs rs len a whole =
    receive-Portion buf p (map got portions ++ got bs ∷ rs) _ len a.0 (
      receive-overrun (after buf p) portions bs rs
        (length-after buf p (omega (arith, a.0.short, len)) ∙ len) a.1 whole)
