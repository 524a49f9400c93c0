-- ===== src/Timer/Chain.antt =====
-- When the doubly linked timers of webserver/src/lst_timer.cpp stand for a list of entries.
use mathlib.Core.Bool.{or_assoc}
use my_tcp_cs.Base.{
  ◌≡◌, ◌≢◌, refl, ap, ◌⊎◌, inl, inr, false, ◌||◌, ◌==◌, ==-ne, Option, none, some, List, [], ◌∷◌,
  ◌++◌, arith,
}
use my_tcp_cs.Timer.Memory.{Ptr, null, Memory, write, State, Timer}
use my_tcp_cs.Timer.Queue.{Entry, timer_of, has, ◌∈◌, ◌∉◌, first, final}

-- From `first es after` on, the links go both ways through the distinct timers `es`, with `before`
-- in front of them and `after` behind.
abbrev pub Chain : Memory → (before : Ptr) → List Entry → (after : Ptr) → Type 0
Chain h before [] after = Unit
Chain h before (e ∷ es) after =
    (e.addr ≢ null)
    × (h e.addr ≡ some (timer_of e before (first es after)))
    × (e.addr ∉ es)
    × Chain h e.addr es after

-- `g` differs from `h` at most at the addresses of `es`.
abbrev pub SameOutside : List Entry → Memory → Memory → Type 0
SameOutside es h g = (a : Ptr) → a ∉ es → g a ≡ h a

-- The list object stands for `es`. The code leaves `tail_` unread while the list is empty.
pub record IsList {E : Type 0} (s : State E) (es : List Entry) : Type 0 where
  pub chain : Chain s.memory null es null
  pub head_first : s.head ≡ first es null
  pub tail_final : s.tail ≡ final s.tail es

pub has-append : (a : Ptr) (xs ys : List Entry) → has a (xs ++ ys) ≡ (has a xs || has a ys)
has-append a [] ys = refl
has-append a (x ∷ xs) ys = rw (has-append a xs ys, or_assoc)

pub first-append :
    (xs ys : List Entry) (after : Ptr) → first (xs ++ ys) after ≡ first xs (first ys after)
first-append [] ys after = refl
first-append (x ∷ xs) ys after = refl

pub final-append :
    (before : Ptr) (xs ys : List Entry) → final before (xs ++ ys) ≡ final (final before xs) ys
final-append before [] ys = refl
final-append before (x ∷ xs) ys = final-append x.addr xs ys

module _ (h : Memory) (before after : Ptr) where
  -- A chain survives any change that spares its own addresses.
  pub Chain-frame :
      (g : Memory) (es : List Entry)
      → Chain h before es after
      → ((a : Ptr) → a ∈ es → g a ≡ h a)
      → Chain g before es after
  Chain-frame g es c same = frame before es c same
    where
      frame :
          (b : Ptr) (es : List Entry)
          → Chain h b es after
          → ((a : Ptr) → a ∈ es → g a ≡ h a)
          → Chain g b es after
      frame b [] c same = tt
      frame b (e ∷ es) c same =
          (c.0, ground (arith, same e.addr), c.2, frame e.addr es c.3 λ a i. same a (ground arith))

  pub Chain-write :
      (es : List Entry) (a : Ptr) (t : Option Timer)
      → Chain h before es after
      → a ∉ es
      → Chain (write h a t) before es after
  unfolding write
  Chain-write es a t c out = Chain-frame _ es c (ground arith)

pub not-mem_of_none :
    (h : Memory) (before after a : Ptr) (es : List Entry)
    → Chain h before es after
    → h a ≡ none
    → a ∉ es
not-mem_of_none h before after a [] c unused = refl
not-mem_of_none h before after a (e ∷ es) c unused =
    ground (arith, not-mem_of_none h e.addr after a es c.3 unused)

-- A chain over a joined list is a chain over each part, and the parts share no timer.
pub Chain-append :
    (h : Memory) (before after : Ptr) (xs ys : List Entry)
    → Chain h before (xs ++ ys) after
    → Chain h before xs (first ys after) × Chain h (final before xs) ys after
Chain-append h before after [] ys c = (tt, c)
Chain-append h before after (x ∷ xs) ys c =
    let (l, r) = Chain-append h x.addr after xs ys c.3 in
    ((c.0, rw (← first-append xs ys after) c.1, ground (arith, has-append x.addr xs ys), l), r)

pub Disjoint-of_Chain :
    (h : Memory) (before after : Ptr) (xs ys : List Entry)
    → Chain h before (xs ++ ys) after
    → (a : Ptr) → a ∈ xs
    → a ∉ ys
Disjoint-of_Chain h before after [] ys c a i = cc
Disjoint-of_Chain h before after (x ∷ xs) ys c a i =
    ground (arith, has-append x.addr xs ys, Disjoint-of_Chain h x.addr after xs ys c.3 a)

pub append-Chain :
    (h : Memory) (before after : Ptr) (xs ys : List Entry)
    → Chain h before xs (first ys after)
    → Chain h (final before xs) ys after
    → ((a : Ptr) → a ∈ xs → a ∉ ys)
    → Chain h before (xs ++ ys) after
append-Chain h before after [] ys l r apart = r
append-Chain h before after (x ∷ xs) ys l r apart = (
  l.0,
  rw (first-append xs ys after) l.1,
  ground (arith, has-append x.addr xs ys, apart x.addr),
  append-Chain h x.addr after xs ys l.3 r λ a i. apart a (ground arith),
)

-- The part of a chain behind `xs` is replaced, in a memory that still agrees on `xs`.
pub Chain-splice :
    (h g : Memory) (before after : Ptr) (xs ys zs : List Entry)
    → Chain h before (xs ++ ys) after
    → first zs after ≡ first ys after
    → ((a : Ptr) → a ∈ xs → g a ≡ h a)
    → Chain g (final before xs) zs after
    → ((a : Ptr) → a ∈ xs → a ∉ zs)
    → Chain g before (xs ++ zs) after
Chain-splice h g before after xs ys zs c e same r apart =
    append-Chain g before after xs zs
      (rw e
        (Chain-frame h before (first ys after) g xs (Chain-append h before after xs ys c).0 same))
      r apart

pub first-ne : (a after : Ptr) (xs : List Entry) → a ∉ xs → a ≢ after → a ≢ first xs after
first-ne a after [] out ne = ne
first-ne a after (x ∷ xs) out ne = ground arith

pub final-mem : (x : Entry) (xs : List Entry) → final x.addr xs ∈ x ∷ xs
final-mem x [] = ground arith
final-mem x (y ∷ ys) = ground (arith, final-mem y ys)

-- A list is empty or has a last element.
pub last-cases :
    (xs : List Entry) → (xs ≡ []) ⊎ ((ys : List Entry) × (f : Entry) × (xs ≡ ys ++ f ∷ []))
last-cases [] = inl refl
last-cases (x ∷ xs) = elim (last-cases xs) [
  | inl e ↦ inr ([], x, ap (◌∷◌ x) e)
  | inr (ys, f, e) ↦ inr (x ∷ ys, f, ap (◌∷◌ x) e)
]

pub ne_of_not-mem-append :
    (a : Ptr) (xs : List Entry) (e : Entry) (ys : List Entry) → a ∉ xs ++ e ∷ ys → e.addr ≢ a
ne_of_not-mem-append a xs e ys out = ground (arith, has-append a xs (e ∷ ys))

pub not-mem-append_erase :
    (a : Ptr) (xs : List Entry) (e : Entry) (ys : List Entry) → a ∉ xs ++ e ∷ ys → a ∉ e ∷ xs ++ ys
not-mem-append_erase a xs e ys out = ground (arith, has-append a xs (e ∷ ys), has-append a xs ys)

pub not-mem-append_left : (a : Ptr) (xs ys : List Entry) → a ∉ xs ++ ys → a ∉ xs
not-mem-append_left a xs ys out = ground (arith, has-append a xs ys)

pub not-mem-append_right : (a : Ptr) (xs ys : List Entry) → a ∉ xs ++ ys → a ∉ ys
not-mem-append_right a xs ys out = ground (arith, has-append a xs ys)

pub ==-of_mem : (a b : Ptr) (xs : List Entry) → a ∉ xs → b ∈ xs → (a == b) ≡ false
==-of_mem a b xs out mem = ==-ne a b λ q. cc (ap (λ c. has c xs) q)
