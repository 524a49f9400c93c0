-- ===== src/Server/Timed/Entries.antt =====
-- Which timers stand in a list.
use my_tcp_cs.Base.{◌≡◌, ◌⊎◌, refl, ap, inl, inr, Bool-cases, ltb, List, [], ◌∷◌, ◌++◌, All}
use my_tcp_cs.Timer.Queue.{Entry, insert}

pub data In (f : Entry) : List Entry → Type 0 where
  first_one : {es : List Entry} → In f (f ∷ es)
  later : {e : Entry} {es : List Entry} → In f es → In f (e ∷ es)

pub In-split :
    (f : Entry) (es : List Entry)
    → In f es
    → (xs : List Entry) × (ys : List Entry) × (es ≡ xs ++ f ∷ ys)
In-split f [] i = elim i [ ]
In-split f (e ∷ es) first_one = ([], es, refl)
In-split f (e ∷ es) (later i) =
    let (xs, ys, split) = In-split f es i in (e ∷ xs, ys, ap (◌∷◌ e) split)

pub In-without :
    {f : Entry} (xs : List Entry) (e : Entry) (ys : List Entry)
    → In f (xs ++ e ∷ ys)
    → (f ≡ e) ⊎ In f (xs ++ ys)
In-without [] e ys first_one = inl refl
In-without [] e ys (later i) = inr i
In-without (x ∷ xs) e ys first_one = inr first_one
In-without (x ∷ xs) e ys (later i) = elim (In-without xs e ys i) [
  | inl same ↦ inl same
  | inr j ↦ inr (later j)
]

pub In-insert_self : (e : Entry) (es : List Entry) → In e (insert e es)
unfolding insert
In-insert_self e [] = first_one
In-insert_self e (f ∷ fs) = elim (Bool-cases (ltb e.expire f.expire)) [
  | inl lt ↦ rw (insert, lt) first_one
  | inr ge ↦ rw (insert, ge) (later (In-insert_self e fs))
]

pub In-insert : {g : Entry} (e : Entry) (es : List Entry) → In g es → In g (insert e es)
unfolding insert
In-insert e [] i = later i
In-insert e (f ∷ fs) first_one = elim (Bool-cases (ltb e.expire f.expire)) [
  | inl lt ↦ rw (insert, lt) (later first_one)
  | inr ge ↦ rw (insert, ge) first_one
]
In-insert e (f ∷ fs) (later i) = elim (Bool-cases (ltb e.expire f.expire)) [
  | inl lt ↦ rw (insert, lt) (later (later i))
  | inr ge ↦ rw (insert, ge) (later (In-insert e fs i))
]

pub All-insert :
    (P : Entry → Type 0) (e : Entry) (es : List Entry) → P e → All P es → All P (insert e es)
unfolding insert
All-insert P e [] p a = (p, tt)
All-insert P e (f ∷ fs) p a = elim (Bool-cases (ltb e.expire f.expire)) [
  | inl lt ↦ rw (insert, lt) (p, a)
  | inr ge ↦ rw (insert, ge) (a.0, All-insert P e fs p a.1)
]
