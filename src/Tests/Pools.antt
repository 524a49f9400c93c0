-- ===== src/Tests/Pools.antt =====
-- The thread pool's theorems in a state that one request and one worker reach.
use my_tcp_cs.Base.{ℕ, ◌≤◌, ◌≡◌, ◌⊎◌, refl, some, none, [], ◌∷◌, length, arith}
use my_tcp_cs.ThreadPool.{
  Pool, outside, looking, waiting, awake, Append, Run, System, by_main, by_worker, update, Reach,
  begin, next,
}
use my_tcp_cs.ThreadPool.Invariant.{Inv, Reach-Inv}
use my_tcp_cs.ThreadPool.Fifo.{Trace, begins, goes_on, put, fifo, Trace-fifo}
use my_tcp_cs.ThreadPool.Progress.{CanAdvance, worker_goes, queued-CanAdvance}
use my_tcp_cs.ThreadPool.Rest.{work, stay, go, Advances-drain}
use my_tcp_cs.ThreadPool.Safety.{queue_overfull}

abbrev posted : Pool
posted = record { queue = 5 ∷ []; holder = none; stat = 1; accepted = 5 ∷ []; taken = [] }

-- The main thread has appended the request 5.
abbrev appended : System
appended = record { pool = posted; main = outside; worker = λ i. waiting }

appended-Reach : Reach 3 2 appended
appended-Reach =
    next
      (next
        (next (next (next begin (by_main (Append.call 5))) (by_main (Append.lock refl)))
          (by_main (Append.push (omega arith))))
        (by_main Append.unlock))
      (by_main Append.post)

-- Worker 0 has taken the semaphore and the lock.
abbrev looked : System
looked = record {
  pool = record posted { holder = some 1; stat = 0 };
  main = outside;
  worker = update (update (λ i. waiting) 0 awake) 0 looking;
}

looked-Reach : Reach 3 2 looked
unfolding update
looked-Reach =
    next (next appended-Reach (by_worker 0 (omega arith) (Run.wait refl)))
      (by_worker 0 (omega arith) (Run.lock refl))

Reach-Inv_example : Inv 3 2 looked.pool looked.main looked.worker
Reach-Inv_example = Reach-Inv looked-Reach

abbrev taking : ℕ
taking = 0

abbrev resting : ℕ
resting = 1

queue_overfull_example : (s : System) × Reach 3 2 s × (length s.pool.queue ≡ 4)
queue_overfull_example = queue_overfull 3 2

appended-Trace : Trace 3 2 appended (put 5 ∷ [])
appended-Trace =
    goes_on
      (goes_on
        (goes_on (goes_on (goes_on begins (by_main (Append.call 5))) (by_main (Append.lock refl)))
          (by_main (Append.push (omega arith))))
        (by_main Append.unlock))
      (by_main Append.post)

Trace-fifo_example : fifo 3 (put 5 ∷ []) [] ≡ some (5 ∷ [])
Trace-fifo_example = Trace-fifo appended-Trace

queued-CanAdvance_example : CanAdvance 3 2 appended
queued-CanAdvance_example = queued-CanAdvance appended-Reach 1 (omega arith) (λ e. cc) (omega arith)

-- Worker 0 passes `Wait`.
abbrev woken : System
woken = record appended {
  pool = record posted { stat = 0 };
  worker = update appended.worker 0 awake;
}

Advances-drain_example : (1 ≤ work 2 appended) × ((woken.pool.queue ≡ []) ⊎ CanAdvance 3 2 woken)
Advances-drain_example =
    Advances-drain appended-Reach (go (worker_goes 0 (omega arith) (Run.wait refl)) stay) 1
      (omega arith) (unfold update in λ e. cc)
