-- ===== src/ThreadPool/Fifo.antt =====
-- The pool of webserver/include/threadpool.h as its users see it: a bounded queue, first in, first
-- out.
use mathlib.Core.Option.{some-injective, none-ne-some}
use my_tcp_cs.Base.{
  ℕ, ◌<◌, ◌≡◌, refl, sym, ap, ◌∙◌, Option, none, some, List, [], ◌∷◌, ◌++◌, ltb, leb, ◌==◌,
  if◌then◌else◌, length, arith, ==-refl, Option-cases, inl, inr,
}
use my_tcp_cs.ThreadPool.{
  Pool, Producer, Worker, looking, Append, Run, System, Step, by_main, by_worker, Reach, begin,
  next, start,
}
use my_tcp_cs.ThreadPool.Safety.{looking-finds}

-- What the pool's users can tell: a request is put or refused, and a worker gets one or finds none.
pub data Call : Type 0 where
  put : (r : ℕ) → Call
  refuse : (r : ℕ) → Call
  get : (r : ℕ) → Call
  find_none : Call

-- A queue that takes requests while it holds at most `max_requests`, gives out the oldest, and is
-- never asked when it is empty; `none` for a call that it does not allow.
pub fifo_step : (max_requests : ℕ) → Call → List ℕ → Option (List ℕ)
fifo_step m (put r) q = if leb (length q) m then some (q ++ r ∷ []) else none
fifo_step m (refuse r) q = if ltb m (length q) then some q else none
fifo_step m (get r) [] = none
fifo_step m (get r) (x ∷ q) = if r == x then some q else none
fifo_step m find_none q = none

pub fifo : (max_requests : ℕ) → List Call → List ℕ → Option (List ℕ)
unfolding fifo_step
fifo m [] q = some q
fifo m (c ∷ cs) q = elim (fifo_step m c q) [ none ↦ none | some q' ↦ fifo m cs q' ]

-- The call that a step of the main thread completes.
abbrev pub told_by_main : {m : ℕ} {p p' : Pool} {a b : Producer} → Append m p a p' b → List Call
told_by_main (Append.call r) = []
told_by_main (Append.lock free) = []
told_by_main (Append.full {r} over) = refuse r ∷ []
told_by_main (Append.push {r} room) = put r ∷ []
told_by_main Append.refuse = []
told_by_main Append.unlock = []
told_by_main Append.post = []

abbrev pub told_by_worker : {i : ℕ} {p p' : Pool} {a b : Worker} → Run i p a p' b → List Call
told_by_worker (Run.wait more) = []
told_by_worker (Run.lock free) = []
told_by_worker (Run.empty nothing) = find_none ∷ []
told_by_worker Run.leave = []
told_by_worker (Run.pop {r} split) = get r ∷ []
told_by_worker Run.unlock = []
told_by_worker (Run.drop_null null) = []
told_by_worker (Run.process real) = []
told_by_worker (Run.hang real) = []

abbrev pub told : {m n : ℕ} {s t : System} → Step m n s t → List Call
told (by_main a) = told_by_main a
told (by_worker i lt r) = told_by_worker r

-- The calls that a run of the threads completes, in the order of the steps that complete them.
pub data Trace (m n : ℕ) : System → List Call → Type 0 where
  begins : Trace m n start []
  goes_on :
      {s t : System} {cs : List Call}
      → Trace m n s cs
      → (st : Step m n s t) → Trace m n t (cs ++ told st)

pub Trace-Reach : {m n : ℕ} {s : System} {cs : List Call} → Trace m n s cs → Reach m n s
Trace-Reach begins = begin
Trace-Reach (goes_on tr st) = next (Trace-Reach tr) st

fifo-append :
    (m : ℕ) (cs ds : List Call) (q q' : List ℕ)
    → fifo m cs q ≡ some q'
    → fifo m (cs ++ ds) q ≡ fifo m ds q'
unfolding fifo
fifo-append m [] ds q q' e = ap (fifo m ds) (some-injective _ _ e)
fifo-append m (c ∷ cs) ds q q' e = elim (Option-cases (fifo_step m c q)) [
  | inl refused ↦ absurd (none-ne-some _ (sym (rw (fifo, refused) refl) ∙ e))
  | inr (u, taken) ↦
      rw (fifo, taken) refl ∙ fifo-append m cs ds u q' (sym (rw (fifo, taken) refl) ∙ e)
]

Append-fifo :
    {m : ℕ} {p p' : Pool} {a b : Producer} (st : Append m p a p' b)
    → fifo m (told_by_main st) p.queue ≡ some p'.queue
unfolding fifo fifo_step
Append-fifo (Append.call r) = refl
Append-fifo (Append.lock free) = refl
Append-fifo (Append.full over) = ground arith
Append-fifo (Append.push room) = ground arith
Append-fifo Append.refuse = refl
Append-fifo Append.unlock = refl
Append-fifo Append.post = refl

Run-fifo :
    (m : ℕ) {i : ℕ} {p p' : Pool} {a b : Worker} (st : Run i p a p' b)
    → (a ≡ looking → 0 < length p.queue)
    → fifo m (told_by_worker st) p.queue ≡ some p'.queue
unfolding fifo fifo_step
Run-fifo m (Run.wait more) finds = refl
Run-fifo m (Run.lock free) finds = refl
Run-fifo m (Run.empty nothing) finds = absurd (omega (arith, finds refl, ap length nothing))
Run-fifo m Run.leave finds = refl
Run-fifo m (Run.pop {r} {q} split) finds =
    ap (fifo m (get r ∷ [])) split ∙ rw (fifo, ==-refl r) refl
Run-fifo m Run.unlock finds = refl
Run-fifo m (Run.drop_null null) finds = refl
Run-fifo m (Run.process real) finds = refl
Run-fifo m (Run.hang real) finds = refl

Step-fifo :
    {m n : ℕ} {s t : System}
    → Reach m n s
    → (st : Step m n s t) → fifo m (told st) s.pool.queue ≡ some t.pool.queue
Step-fifo reach (by_main a) = Append-fifo a
Step-fifo reach (by_worker i lt r) = Run-fifo _ r (λ e. looking-finds reach i lt e)

-- However the threads interleave, the calls that they complete are a run of the bounded queue,
-- which ends with the requests that are in the pool's queue: requests come out in the order in
-- which they were put, each at most once, one is refused only when the queue holds more than
-- `max_requests`, and no worker finds the queue empty.
pub Trace-fifo :
    {m n : ℕ} {s : System} {cs : List Call} → Trace m n s cs → fifo m cs [] ≡ some s.pool.queue
unfolding fifo
Trace-fifo begins = refl
Trace-fifo (goes_on tr st) =
    fifo-append _ _ (told st) [] _ (Trace-fifo tr) ∙ Step-fifo (Trace-Reach tr) st
