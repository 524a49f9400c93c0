-- ===== src/Timer/Queue.antt =====
-- What a timer list stands for: its timers in order, apart from the two link fields. This is the
-- specification that the operations of webserver/src/lst_timer.cpp are proved against.
use mathlib.Core.List.{Perm}
use mathlib.Core.List.Perm
use my_tcp_cs.Base.{
  ℕ, ◌+◌, ◌≤◌, ◌<◌, ◌≡◌, ◌≢◌, refl, Bool, true, false, ◌||◌, List, [], ◌∷◌, ◌++◌, arith, ltb, ◌==◌,
  Bool-cases, if◌then◌else◌, All, length, inl, inr,
}
use my_tcp_cs.Timer.Memory.{Ptr, Timer}

pub record Entry : Type 0 where
  pub addr : Ptr
  pub cb_func : ℕ
  pub expire : ℕ
  pub user_data : ℕ

-- The timer of an entry between two neighbours.
abbrev pub timer_of : Entry → (prev next : Ptr) → Timer
timer_of e prev next = record {
  cb_func = e.cb_func;
  expire = e.expire;
  user_data = e.user_data;
  prev = prev;
  next = next;
}

abbrev pub has : Ptr → List Entry → Bool
has a [] = false
has a (e ∷ es) = (a == e.addr) || has a es

infix 40 ◌∈◌ ◌∉◌
abbrev pub ◌∈◌ : Ptr → List Entry → Type 0
a ∈ es = has a es ≡ true

abbrev pub ◌∉◌ : Ptr → List Entry → Type 0
a ∉ es = has a es ≡ false

-- The address of the first entry, or `after` if there is none.
abbrev pub first : List Entry → (after : Ptr) → Ptr
first [] after = after
first (e ∷ es) after = e.addr

-- The address of the last entry, or `before` if there is none.
abbrev pub final : (before : Ptr) → List Entry → Ptr
final before [] = before
final before (e ∷ es) = final e.addr es

-- Ordered insertion, behind the entries that expire at the same time.
unfoldable pub insert : Entry → List Entry → List Entry
insert e [] = e ∷ []
insert e (f ∷ fs) = if ltb e.expire f.expire then e ∷ f ∷ fs else f ∷ insert e fs

-- Expiry times ascend.
abbrev pub IsSorted : List Entry → Type 0
IsSorted [] = Unit
IsSorted (e ∷ es) = All (λ f. e.expire ≤ f.expire) es × IsSorted es

-- The entries still to expire at `cur`, from the first such entry on.
unfoldable pub unexpired : ℕ → List Entry → List Entry
unexpired cur [] = []
unexpired cur (e ∷ es) = if ltb cur e.expire then e ∷ es else unexpired cur es

-- The entries in front of those.
unfoldable pub expired : ℕ → List Entry → List Entry
expired cur [] = []
expired cur (e ∷ es) = if ltb cur e.expire then [] else e ∷ expired cur es

pub insert-perm : (e : Entry) (es : List Entry) → Perm (insert e es) (e ∷ es)
unfolding insert
insert-perm e [] = Perm.refl (e ∷ [])
insert-perm e (f ∷ fs) = elim (Bool-cases (ltb e.expire f.expire)) [
  | inl lt ↦ rw lt (Perm.refl (e ∷ f ∷ fs))
  | inr ge ↦ rw ge (Perm.trans (Perm.cons f (insert-perm e fs)) (Perm.swap e f fs))
]

pub length-insert : (e : Entry) (es : List Entry) → length (insert e es) ≡ length es + 1
unfolding insert
length-insert e [] = refl
length-insert e (f ∷ fs) = ground (arith, length-insert e fs)

pub has-insert : (a : Ptr) (e : Entry) (es : List Entry) → has a (insert e es) ≡ has a (e ∷ es)
unfolding insert
has-insert a e [] = refl
has-insert a e (f ∷ fs) = ground (arith, has-insert a e fs)

All-mono :
    {m n : ℕ} (es : List Entry) → m ≤ n → All (λ f. n ≤ f.expire) es → All (λ f. m ≤ f.expire) es
All-mono [] h a = tt
All-mono (e ∷ es) h a = (omega arith, All-mono es h a.1)

All-insert :
    {m : ℕ} (e : Entry) (es : List Entry)
    → m ≤ e.expire
    → All (λ f. m ≤ f.expire) es
    → All (λ f. m ≤ f.expire) (insert e es)
unfolding insert
All-insert e [] h a = (h, tt)
All-insert e (f ∷ fs) h a = ground (arith, All-insert e fs h a.1)

pub insert-IsSorted : (e : Entry) (es : List Entry) → IsSorted es → IsSorted (insert e es)
unfolding insert
insert-IsSorted e [] s = (tt, tt)
insert-IsSorted e (f ∷ fs) s = elim (Bool-cases (ltb e.expire f.expire)) [
  | inl lt ↦ rw lt ((ground arith, All-mono fs (ground arith) s.0), s)
  | inr ge ↦ rw ge (All-insert e fs (ground arith) s.0, insert-IsSorted e fs s.1)
]

pub ne_of_not-mem : (a : Ptr) (e : Entry) (es : List Entry) → a ∉ e ∷ es → e.addr ≢ a
ne_of_not-mem a e es out = ground arith

-- Lists that share no address, read from the other side.
pub not-mem_of_apart :
    (xs ys : List Entry) → ((a : Ptr) → a ∈ xs → a ∉ ys) → (a : Ptr) → a ∈ ys → a ∉ xs
not-mem_of_apart xs ys apart a i = ground (arith, apart a)

pub insert-append :
    (e : Entry) (xs ys : List Entry)
    → All (λ f. f.expire ≤ e.expire) xs
    → insert e (xs ++ ys) ≡ xs ++ insert e ys
unfolding insert
insert-append e [] ys a = refl
insert-append e (x ∷ xs) ys a = ground (arith, insert-append e xs ys a.1)

pub unexpired-lt :
    (cur : ℕ) (es : List Entry) → IsSorted es → All (λ e. cur < e.expire) (unexpired cur es)
unfolding unexpired
unexpired-lt cur [] s = tt
unexpired-lt cur (e ∷ es) s = elim (Bool-cases (ltb cur e.expire)) [
  | inl lt ↦ rw lt (ground arith, above e.expire es (ground arith) s.0)
  | inr ge ↦ rw ge (unexpired-lt cur es s.1)
]
  where
    above :
        (n : ℕ) (es : List Entry)
        → cur < n
        → All (λ f. n ≤ f.expire) es
        → All (λ f. cur < f.expire) es
    above n [] h a = tt
    above n (f ∷ fs) h a = (omega arith, above n fs h a.1)
