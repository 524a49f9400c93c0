-- ===== src/ThreadPool/Progress.antt =====
-- The pool of webserver/include/threadpool.h never gets stuck, and comes to rest when nothing more
-- is appended.
use my_tcp_cs.Base.{
  ℕ, zero, suc, ◌<◌, ◌≡◌, ◌≢◌, ◌⊎◌, refl, ap, false, none, some, List, [], ◌∷◌, length, inl, inr,
  Option-cases, Bool-cases, leb, ◌==◌, arith,
}
use my_tcp_cs.ThreadPool.{
  Pool, Producer, outside, locking, testing, refusing, unlocking, posting, Worker, waiting, awake,
  looking, leaving, holding, serving, stuck, Append, Run, System, update, Reach,
}
use my_tcp_cs.ThreadPool.Counting.{sum_to-some}
use my_tcp_cs.ThreadPool.Invariant.{in_append, in_run, owed, due, Reach-Inv}
use my_tcp_cs.ThreadPool.Holder.{Reach-Held}

unit_there : (n : ℕ) → 0 < n → (k : ℕ) × (n ≡ suc k)
unit_there zero h = absurd (omega (arith, h))
unit_there (suc k) h = (k, refl)

pub List-cases : (l : List ℕ) → (l ≡ []) ⊎ ((r : ℕ) × (q : List ℕ) × (l ≡ r ∷ q))
List-cases [] = inl refl
List-cases (r ∷ q) = inr (r, q, refl)

-- A step of the main thread inside `Append`, or of a worker: anything but a new call of `Append`.
pub data Advance (max_requests n : ℕ) (s : System) : System → Type 0 where
  main_goes :
      {p : Pool} {m : Producer}
      → s.main ≢ outside
      → Append max_requests s.pool s.main p m
      → Advance max_requests n s (record s { pool = p; main = m })
  worker_goes :
      (i : ℕ) {p : Pool} {w : Worker}
      → i < n
      → Run (suc i) s.pool (s.worker i) p w
      → Advance max_requests n s (record s { pool = p; worker = update s.worker i w })

-- Someone can go on.
abbrev pub CanAdvance : (max_requests n : ℕ) → System → Type 0
CanAdvance max_requests n s = (t : System) × Advance max_requests n s t

-- The main thread can go on inside `Append`, unless it needs a lock that another has.
Append-moves :
    (max_requests : ℕ) (p : Pool) (m : Producer)
    → m ≢ outside
    → (in_append m ≡ false → p.holder ≡ none)
    → (p' : Pool) × (m' : Producer) × Append max_requests p m p' m'
Append-moves max_requests p outside inside free = absurd (inside refl)
Append-moves max_requests p (locking r) inside free = (_, _, Append.lock (free refl))
Append-moves max_requests p (testing r) inside free =
    elim (Bool-cases (leb (length p.queue) max_requests)) [
      | inl room ↦ (_, _, Append.push (ground arith))
      | inr over ↦ (_, _, Append.full (ground arith))
    ]
Append-moves max_requests p (refusing r) inside free = (_, _, Append.refuse)
Append-moves max_requests p unlocking inside free = (_, _, Append.unlock)
Append-moves max_requests p posting inside free = (_, _, Append.post)

-- A worker that is not stuck in `Process` can go on, unless it needs a unit of the semaphore or a
-- lock that another has.
Run-moves :
    (i : ℕ) (p : Pool) (w : Worker)
    → (w ≡ waiting → 0 < p.stat)
    → (w ≡ awake → p.holder ≡ none)
    → w ≢ stuck
    → (p' : Pool) × (w' : Worker) × Run i p w p' w'
Run-moves i p waiting unit free runs =
    let (k, e) = unit_there p.stat (unit refl) in (_, _, Run.wait e)
Run-moves i p awake unit free runs = (_, _, Run.lock (free refl))
Run-moves i p looking unit free runs = elim (List-cases p.queue) [
  | inl e ↦ (_, _, Run.empty e)
  | inr (r, q, e) ↦ (_, _, Run.pop e)
]
Run-moves i p leaving unit free runs = (_, _, Run.leave)
Run-moves i p (holding r) unit free runs = (_, _, Run.unlock)
Run-moves i p (serving r) unit free runs = elim (Bool-cases (r == 0)) [
  | inl null ↦ (_, _, Run.drop_null (ground arith))
  | inr real ↦ (_, _, Run.process (ground arith))
]
Run-moves i p stuck unit free runs = absurd (runs refl)

module _ {max_requests n : ℕ} {s : System} where
  main-CanAdvance :
      s.main ≢ outside
      → (in_append s.main ≡ false → s.pool.holder ≡ none)
      → CanAdvance max_requests n s
  main-CanAdvance inside free =
      let (p, m, a) = Append-moves max_requests s.pool s.main inside free in (_, main_goes inside a)

  worker-CanAdvance :
      (i : ℕ)
      → i < n
      → (s.worker i ≡ waiting → 0 < s.pool.stat)
      → (s.worker i ≡ awake → s.pool.holder ≡ none)
      → s.worker i ≢ stuck
      → CanAdvance max_requests n s
  worker-CanAdvance i lt unit free runs =
      let (p, w, r) = Run-moves (suc i) s.pool (s.worker i) unit free runs in
      (_, worker_goes i lt r)

  -- With the lock free, a worker that has passed `Wait` can go on.
  due-CanAdvance :
      (i : ℕ) → i < n → s.pool.holder ≡ none → 0 < due (s.worker i) → CanAdvance max_requests n s
  due-CanAdvance i lt free some_due =
      worker-CanAdvance i lt (λ e. absurd (omega (arith, some_due, ap due e))) (λ e. free)
        (λ e. absurd (omega (arith, some_due, ap due e)))

  -- The holder of the lock can go on.
  holder-CanAdvance :
      (k : ℕ) → Reach max_requests n s → s.pool.holder ≡ some k → CanAdvance max_requests n s
  holder-CanAdvance zero reach held =
      let inside = (Reach-Held reach).by_append held in
      main-CanAdvance (λ e. ground (arith, ap in_append e)) (λ e. ground arith)
  holder-CanAdvance (suc i) reach held =
      let (lt, inside) = (Reach-Held reach).by_run i held in
      worker-CanAdvance i lt (λ e. ground (arith, ap in_run e)) (λ e. ground (arith, ap in_run e))
        (λ e. ground (arith, ap in_run e))

  -- With the lock free and a request in the queue, a worker can go on, or the main thread has to.
  free-CanAdvance :
      Reach max_requests n s
      → (i : ℕ) → i < n
      → s.worker i ≢ stuck
      → 0 < length s.pool.queue
      → s.pool.holder ≡ none
      → CanAdvance max_requests n s
  free-CanAdvance reach i₀ lt₀ runs some_there free = elim (Bool-cases (owed s.main == 0)) [
    | inr owes ↦ main-CanAdvance (λ e. ground (arith, ap owed e)) (λ e. free)
    | inl paid ↦ elim (Bool-cases (s.pool.stat == 0)) [
      | inr units ↦ worker-CanAdvance i₀ lt₀ (λ e. ground arith) (λ e. free) runs
      | inl no_units ↦
          let (i, lt, some_due) =
            sum_to-some due n s.worker (ground (arith, (Reach-Inv reach).units)) in
          due-CanAdvance i lt free some_due
    ]
  ]

  -- No deadlock: while a request is in the queue, and some worker `i` is not in a call of `Process`
  -- that never returns, some thread can go on without a new call of `Append`, in whatever state the
  -- threads have come to.
  pub queued-CanAdvance :
      Reach max_requests n s
      → (i : ℕ) → i < n
      → s.worker i ≢ stuck
      → 0 < length s.pool.queue
      → CanAdvance max_requests n s
  queued-CanAdvance reach i lt runs some_there = elim (Option-cases s.pool.holder) [
    | inl free ↦ free-CanAdvance reach i lt runs some_there free
    | inr (k, held) ↦ holder-CanAdvance k reach held
  ]
