-- ===== src/Timer/Postpone.antt =====
-- What the event loop of webserver/src/main.cpp does to a client's timer when input comes in: it
-- sets a later expiry time and calls `Adjust_Timer` of webserver/src/lst_timer.cpp.
use my_tcp_cs.Base.{ℕ, ◌≤◌, ◌≡◌, ◌∙◌, List, [], ◌∷◌, ◌++◌, All, All-middle, length, arith}
use my_tcp_cs.Timer.{adjust_timer}
use my_tcp_cs.Timer.Memory.{State, set_expire, ◌>>◌}
use my_tcp_cs.Timer.Queue.{Entry, IsSorted, insert, insert-IsSorted}
use my_tcp_cs.Timer.Chain.{IsList}
use my_tcp_cs.Timer.Steps
use my_tcp_cs.Timer.Steps.{Returns, returns}
use my_tcp_cs.Timer.Adjust.{adjust_timer-insert, set_expire-IsList}

pub All-without :
    (P : Entry → Type 0) (xs : List Entry) (e : Entry) (ys : List Entry)
    → All P (xs ++ e ∷ ys)
    → All P (xs ++ ys)
All-without P [] e ys a = a.1
All-without P (x ∷ xs) e ys a = (a.0, All-without P xs e ys a.1)

-- A list in order stays so without one of its entries.
pub IsSorted-without :
    (xs : List Entry) (e : Entry) (ys : List Entry) → IsSorted (xs ++ e ∷ ys) → IsSorted (xs ++ ys)
IsSorted-without [] e ys s = s.1
IsSorted-without (x ∷ xs) e ys s = (All-without _ xs e ys s.0, IsSorted-without xs e ys s.1)

-- In a list in order, what stands in front of an entry expires no later than any later time.
before-All :
    (xs : List Entry) (e : Entry) (ys : List Entry) (n : ℕ)
    → IsSorted (xs ++ e ∷ ys)
    → e.expire ≤ n
    → All (λ f. f.expire ≤ n) xs
before-All [] e ys n s later = tt
before-All (x ∷ xs) e ys n s later = (
  omega (arith, All-middle (λ f. x.expire ≤ f.expire) xs e ys s.0, later),
  before-All xs e ys n s.1 later,
)

-- In a list in order, a timer that gets an expiry time no earlier than its old one, and is then
-- adjusted, goes to its place among the others: the list is in order again. Nothing faults, and
-- fuel for the other timers is enough.
pub set_expire-adjust_timer :
    {E : Type 0} (s : State E) (e : Entry) (k n : ℕ) (xs ys : List Entry)
    → IsList s (xs ++ e ∷ ys)
    → IsSorted (xs ++ e ∷ ys)
    → e.expire ≤ n
    → length (xs ++ ys) ≤ k
    → let es = insert (record e { expire = n }) (xs ++ ys) in
      Returns
        (λ _ s'. IsList s' es × IsSorted es × (s'.env ≡ s.env))
        ((set_expire e.addr n >> adjust_timer k e.addr) s)
set_expire-adjust_timer s e k n xs ys l sorted later fuel =
    let e' : Entry = record e { expire = n } in
    let rest : IsSorted (xs ++ ys) = IsSorted-without xs e ys sorted in
    Steps.bind (set_expire-IsList s e n xs ys l) λ _ s₁ p.
      Steps.mono
        (adjust_timer-insert s₁ e' k xs ys p.0 rest (before-All xs e ys n sorted later) fuel)
        λ _ s₂ b. (b.list, insert-IsSorted e' (xs ++ ys) rest, b.same_env ∙ p.1)
