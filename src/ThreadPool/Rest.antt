-- ===== src/ThreadPool/Rest.antt =====
-- The pool of webserver/include/threadpool.h comes to rest when nothing more is appended.
use my_tcp_cs.Base.{
  ℕ, suc, ◌+◌, ◌*◌, ◌≤◌, ◌<◌, ◌≡◌, ◌≢◌, ◌⊎◌, refl, ap, [], length, inl, inr, arith,
}
use my_tcp_cs.ThreadPool.{
  Pool, Producer, outside, locking, testing, refusing, unlocking, posting, Worker, waiting, awake,
  looking, leaving, holding, serving, stuck, Append, Run, System, by_main, by_worker, Reach, next,
}
use my_tcp_cs.ThreadPool.Counting.{sum_to, sum_to-update}
use my_tcp_cs.ThreadPool.Progress.{
  List-cases, Advance, main_goes, worker_goes, CanAdvance, queued-CanAdvance,
}

-- The steps that the main thread still takes in its call of `Append`, with those that the request
-- then takes a worker.
abbrev pub steps_of : Producer → ℕ
steps_of outside = 0
steps_of (locking r) = 9
steps_of (testing r) = 8
steps_of (refusing r) = 1
steps_of unlocking = 7
steps_of posting = 6

-- The steps that a worker still takes before it waits again.
abbrev pub steps_left : Worker → ℕ
steps_left waiting = 0
steps_left awake = 4
steps_left looking = 3
steps_left leaving = 1
steps_left (holding r) = 2
steps_left (serving r) = 1
steps_left stuck = 0

-- The steps that all threads can still take without a new call of `Append`: a unit of the semaphore
-- lets a worker go round once.
abbrev pub work : (n : ℕ) → System → ℕ
work n s = steps_of s.main + 5 * s.pool.stat + sum_to steps_left n s.worker

Append-work :
    {max_requests : ℕ} {p p' : Pool} {a b : Producer}
    → Append max_requests p a p' b
    → a ≢ outside
    → steps_of b + 5 * p'.stat < steps_of a + 5 * p.stat
Append-work (Append.call r) inside = absurd (inside refl)
Append-work (Append.lock free) inside = omega arith
Append-work (Append.full over) inside = omega arith
Append-work (Append.push room) inside = omega arith
Append-work Append.refuse inside = omega arith
Append-work Append.unlock inside = omega arith
Append-work Append.post inside = omega arith

Run-work :
    {i : ℕ} {p p' : Pool} {a b : Worker}
    → Run i p a p' b
    → steps_left b + 5 * p'.stat < steps_left a + 5 * p.stat
Run-work (Run.wait more) = omega (arith, more)
Run-work (Run.lock free) = omega arith
Run-work (Run.empty nothing) = omega arith
Run-work Run.leave = omega arith
Run-work (Run.pop split) = omega arith
Run-work Run.unlock = omega arith
Run-work (Run.drop_null null) = omega arith
Run-work (Run.process real) = omega arith
Run-work (Run.hang real) = omega arith

Advance-work :
    {max_requests n : ℕ} {s t : System} → Advance max_requests n s t → work n t < work n s
Advance-work (main_goes inside a) = omega (arith, Append-work a inside)
Advance-work {n} {s} (worker_goes i {p} {w} lt r) =
    omega (arith, Run-work r, sum_to-update steps_left n i s.worker w lt)

-- `k` steps of the threads without a new call of `Append`.
pub data Advances (max_requests n : ℕ) : ℕ → System → System → Type 0 where
  stay : {s : System} → Advances max_requests n 0 s s
  go :
      {k : ℕ} {s t u : System}
      → Advance max_requests n s t
      → Advances max_requests n k t u
      → Advances max_requests n (suc k) s u

Advances-work :
    {max_requests n k : ℕ} {s t : System} → Advances max_requests n k s t → k + work n t ≤ work n s
Advances-work stay = omega arith
Advances-work (go a rest) = omega (arith, Advance-work a, Advances-work rest)

Advance-Reach :
    {max_requests n : ℕ} {s t : System}
    → Reach max_requests n s
    → Advance max_requests n s t
    → Reach max_requests n t
Advance-Reach r (main_goes inside a) = next r (by_main a)
Advance-Reach r (worker_goes i lt a) = next r (by_worker i lt a)

Advances-Reach :
    {max_requests n k : ℕ} {s t : System}
    → Reach max_requests n s
    → Advances max_requests n k s t
    → Reach max_requests n t
Advances-Reach r stay = r
Advances-Reach r (go a rest) = Advances-Reach (Advance-Reach r a) rest

-- From any state that the threads have come to, they take at most `work` steps without a new call
-- of `Append`, however they interleave, and as long as a request is in the queue, and some worker
-- `i` is not in a call of `Process` that never returns, some thread can take another: unless the
-- program ends before or the workers are all stuck in `Process`, in the end every request that was
-- accepted has been taken.
pub Advances-drain :
    {max_requests n k : ℕ} {s t : System}
    → Reach max_requests n s
    → Advances max_requests n k s t
    → (i : ℕ) → i < n
    → t.worker i ≢ stuck
    → (k ≤ work n s) × ((t.pool.queue ≡ []) ⊎ CanAdvance max_requests n t)
Advances-drain {t} reach steps i lt free = (
  omega (arith, Advances-work steps),
  elim (List-cases t.pool.queue) [
    | inl empty ↦ inl empty
    | inr (r, q, e) ↦
        inr (queued-CanAdvance (Advances-Reach reach steps) i lt free (omega (arith, ap length e)))
  ],
)
