-- ===== src/ThreadPool/Holder.antt =====
-- Whoever holds the lock of the pool in webserver/include/threadpool.h is on the way to release it.
use my_tcp_cs.Base.{ℕ, suc, ◌<◌, ◌≡◌, refl, true, some, arith}
use my_tcp_cs.ThreadPool.{
  Pool, Producer, Worker, Append, Run, System, update, by_main, by_worker, Reach, begin, next,
}
use my_tcp_cs.ThreadPool.Invariant.{in_append, in_run}

pub record Held (n : ℕ) (p : Pool) (m : Producer) (w : ℕ → Worker) : Type 0 where
  pub by_append : p.holder ≡ some 0 → in_append m ≡ true
  pub by_run : (i : ℕ) → p.holder ≡ some (suc i) → (i < n) × (in_run (w i) ≡ true)

Append-Held :
    {max_requests n : ℕ} {p p' : Pool} {m m' : Producer} {w : ℕ → Worker}
    → Append max_requests p m p' m'
    → Held n p m w
    → Held n p' m' w
Append-Held (Append.call r) v = record {
  by_append = λ h. ground (arith, v.by_append h);
  by_run = v.by_run;
}
Append-Held (Append.lock free) v = record { by_append = λ h. refl; by_run = λ i h. ground arith }
Append-Held (Append.full over) v = record { by_append = λ h. refl; by_run = v.by_run }
Append-Held (Append.push room) v = record { by_append = λ h. refl; by_run = v.by_run }
Append-Held Append.refuse v = record { by_append = λ h. ground arith; by_run = λ i h. ground arith }
Append-Held Append.unlock v = record { by_append = λ h. ground arith; by_run = λ i h. ground arith }
Append-Held Append.post v = record {
  by_append = λ h. ground (arith, v.by_append h);
  by_run = v.by_run;
}

Run-Held :
    {n : ℕ} {p p' : Pool} {m : Producer} {w : ℕ → Worker} {a b : Worker} (i : ℕ)
    → i < n
    → Run (suc i) p a p' b
    → w i ≡ a
    → Held n p m w
    → Held n p' m (update w i b)
unfolding update
Run-Held i lt (Run.wait more) e v = record {
  by_append = v.by_append;
  by_run = λ j h. ground (arith, v.by_run j h);
}
Run-Held i lt (Run.lock free) e v = record {
  by_append = λ h. ground arith;
  by_run = λ j h. ground arith;
}
Run-Held i lt (Run.empty nothing) e v = record {
  by_append = v.by_append;
  by_run = λ j h. ground (arith, v.by_run j h);
}
Run-Held i lt Run.leave e v = record { by_append = λ h. ground arith; by_run = λ j h. ground arith }
Run-Held i lt (Run.pop split) e v = record {
  by_append = v.by_append;
  by_run = λ j h. ground (arith, v.by_run j h);
}
Run-Held i lt Run.unlock e v = record {
  by_append = λ h. ground arith;
  by_run = λ j h. ground arith;
}
Run-Held i lt (Run.drop_null null) e v = record {
  by_append = v.by_append;
  by_run = λ j h. ground (arith, v.by_run j h);
}
Run-Held i lt (Run.process real) e v = record {
  by_append = v.by_append;
  by_run = λ j h. ground (arith, v.by_run j h);
}
Run-Held i lt (Run.hang real) e v = record {
  by_append = v.by_append;
  by_run = λ j h. ground (arith, v.by_run j h);
}

pub Reach-Held :
    {max_requests n : ℕ} {s : System} → Reach max_requests n s → Held n s.pool s.main s.worker
Reach-Held begin = record { by_append = λ h. ground arith; by_run = λ i h. ground arith }
Reach-Held (next r (by_main a)) = Append-Held a (Reach-Held r)
Reach-Held (next r (by_worker i lt st)) = Run-Held i lt st refl (Reach-Held r)
