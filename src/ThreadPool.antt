-- ===== src/ThreadPool.antt =====
-- webserver/include/threadpool.h, with the lock and the semaphore of webserver/include/locker.h:
-- the main thread's `Append` and the workers' `Run`, as steps of threads over shared state.
pub mod Counting
pub mod Invariant
pub mod Safety
pub mod Fifo
pub mod Holder
pub mod Progress
pub mod Rest
pub mod Startup
pub mod Orphans
use my_tcp_cs.Base.{
  ℕ, zero, suc, ◌+◌, ◌≤◌, ◌<◌, ◌≡◌, ◌≢◌, Bool, true, false, Option, none, some, List, [], ◌∷◌, ◌++◌,
  ltb, ◌==◌, if◌then◌else◌, length,
}

-- What the threads share. `holder` is the thread that has locked `m_queuelocker_`, `stat` the value
-- of `m_queuestat_`. A request is a number, and 0 is the null pointer. `accepted` and `taken` list
-- the requests that went into the queue and that came out, in order: they are kept for the proofs.
pub record Pool : Type 0 where
  pub queue : List ℕ
  pub holder : Option ℕ
  pub stat : ℕ
  pub accepted : List ℕ
  pub taken : List ℕ

-- The main thread: outside `Append`, before `Lock`, with the lock before the test, before the first
-- `unLock` of a refusal, before that of a success, and before `Post`.
pub data Producer : Type 0 where
  outside : Producer
  locking : ℕ → Producer
  testing : ℕ → Producer
  refusing : ℕ → Producer
  unlocking : Producer
  posting : Producer

-- A worker: before `m_queuestat_.Wait()`, before `Lock`, with the lock before the test, before the
-- `unLock` of an empty queue, before that with a request in hand, before `Process`, and in a call
-- of `Process` that never returns.
pub data Worker : Type 0 where
  waiting : Worker
  awake : Worker
  looking : Worker
  leaving : Worker
  holding : ℕ → Worker
  serving : ℕ → Worker
  stuck : Worker

-- One atomic step of the main thread, which is thread 0.
pub data Append (max_requests : ℕ) (p : Pool) : Producer → Pool → Producer → Type 0 where
  call : (r : ℕ) → Append max_requests p outside p (locking r)
  lock :
      {r : ℕ}
      → p.holder ≡ none
      → Append max_requests p (locking r) (record p { holder = some 0 }) (testing r)
  full : {r : ℕ} → max_requests < length p.queue → Append max_requests p (testing r) p (refusing r)
  push :
      {r : ℕ}
      → length p.queue ≤ max_requests
      → Append max_requests p
          (testing r)
          (record p { queue = p.queue ++ r ∷ []; accepted = p.accepted ++ r ∷ [] })
          unlocking
  refuse : {r : ℕ} → Append max_requests p (refusing r) (record p { holder = none }) outside
  unlock : Append max_requests p unlocking (record p { holder = none }) posting
  post : Append max_requests p posting (record p { stat = p.stat + 1 }) outside

-- One atomic step of worker `i`. `Process` belongs to the request: it returns, or it does not, as
-- when `Modfd` repeats a call that the kernel goes on refusing. Where it ends the program, by an
-- exception that nothing catches, the run ends there.
pub data Run (i : ℕ) (p : Pool) : Worker → Pool → Worker → Type 0 where
  wait : {n : ℕ} → p.stat ≡ suc n → Run i p waiting (record p { stat = n }) awake
  lock : p.holder ≡ none → Run i p awake (record p { holder = some i }) looking
  empty : p.queue ≡ [] → Run i p looking p leaving
  leave : Run i p leaving (record p { holder = none }) waiting
  pop :
      {r : ℕ} {q : List ℕ}
      → p.queue ≡ r ∷ q
      → Run i p looking (record p { queue = q; taken = p.taken ++ r ∷ [] }) (holding r)
  unlock : {r : ℕ} → Run i p (holding r) (record p { holder = none }) (serving r)
  drop_null : {r : ℕ} → r ≡ 0 → Run i p (serving r) p waiting
  process : {r : ℕ} → r ≢ 0 → Run i p (serving r) p waiting
  hang : {r : ℕ} → r ≢ 0 → Run i p (serving r) p stuck

-- The default of the constructor's `max_requests`.
abbrev pub default_requests : ℕ
default_requests = 10000

pub record System : Type 0 where
  pub pool : Pool
  pub main : Producer
  pub worker : ℕ → Worker

-- `f` with `a` at `i`.
unfoldable pub update {ℓ} : {A : Type ℓ} → (ℕ → A) → ℕ → A → ℕ → A
update f i a j = if j == i then a else f j

-- The main thread or one of `n` workers makes a step; worker `i` locks as thread `i + 1`.
pub data Step (max_requests n : ℕ) (s : System) : System → Type 0 where
  by_main :
      {p : Pool} {m : Producer}
      → Append max_requests s.pool s.main p m
      → Step max_requests n s (record s { pool = p; main = m })
  by_worker :
      (i : ℕ) {p : Pool} {w : Worker}
      → i < n
      → Run (suc i) s.pool (s.worker i) p w
      → Step max_requests n s (record s { pool = p; worker = update s.worker i w })

-- `ThreadPool()`, once its workers have started.
abbrev pub start : System
start = record {
  pool = record { queue = []; holder = none; stat = 0; accepted = []; taken = [] };
  main = outside;
  worker = λ i. waiting;
}

pub data Reach (max_requests n : ℕ) : System → Type 0 where
  begin : Reach max_requests n start
  next : {s t : System} → Reach max_requests n s → Step max_requests n s t → Reach max_requests n t
