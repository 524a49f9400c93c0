-- ===== src/ThreadPool/Invariant.antt =====
-- What holds of the pool's threads at every moment.
use mathlib.Core.List.{append_assoc}
use my_tcp_cs.Base.{
  ℕ, suc, ◌+◌, ◌≤◌, ◌<◌, ◌≡◌, refl, sym, ap, subst, ◌∙◌, Bool, true, false, some, [], ◌∷◌, ◌++◌,
  arith, length, length-append,
}
use my_tcp_cs.ThreadPool.{
  Pool, Producer, testing, refusing, unlocking, posting, Worker, waiting, awake, looking, leaving,
  holding, serving, stuck, Append, Run, System, update, Step, by_main, by_worker, Reach, begin,
  next,
}
use my_tcp_cs.ThreadPool.Counting.{sum_to, sum_to-update, sum_to-zero}

-- Between `Lock` and `unLock`.
abbrev pub in_append : Producer → Bool
in_append (testing r) = true
in_append (refusing r) = true
in_append unlocking = true
in_append _ = false

abbrev pub in_run : Worker → Bool
in_run looking = true
in_run leaving = true
in_run (holding r) = true
in_run _ = false

-- A push whose `Post` is still to come.
abbrev pub owed : Producer → ℕ
owed unlocking = 1
owed posting = 1
owed _ = 0

-- A worker that has passed `Wait` and has not taken its request yet.
abbrev pub due : Worker → ℕ
due awake = 1
due looking = 1
due _ = 0

-- The requests that the queue holds are those that were accepted and not taken, in order; each has
-- a unit of the semaphore, a worker on its way to it, or a `Post` to come.
pub record Inv (max_requests n : ℕ) (p : Pool) (m : Producer) (w : ℕ → Worker) : Type 0 where
  pub main_holds : in_append m ≡ true → p.holder ≡ some 0
  pub worker_holds : (i : ℕ) → in_run (w i) ≡ true → p.holder ≡ some (suc i)
  pub units : p.stat + sum_to due n w + owed m ≡ length p.queue
  pub bounded : length p.queue ≤ max_requests + 1
  pub order : p.taken ++ p.queue ≡ p.accepted

-- Worker `i` moves from `a` to `b`: the sum over the workers follows.
moved :
    (n : ℕ) (w : ℕ → Worker) (i : ℕ) (a b : Worker)
    → i < n
    → w i ≡ a
    → sum_to due n (update w i b) + due a ≡ sum_to due n w + due b
moved n w i a b lt e =
    subst (λ x. sum_to due n (update w i b) + due x ≡ sum_to due n w + due b) e
      (sum_to-update due n i w b lt)

module _ {max_requests n : ℕ} where
  Append-Inv :
      {p p' : Pool} {m m' : Producer} {w : ℕ → Worker}
      → Append max_requests p m p' m'
      → Inv max_requests n p m w
      → Inv max_requests n p' m' w
  Append-Inv (Append.call r) v = record {
    main_holds = λ h. cc;
    worker_holds = v.worker_holds;
    units = v.units;
    bounded = v.bounded;
    order = v.order;
  }
  Append-Inv (Append.lock free) v = record {
    main_holds = λ h. refl;
    worker_holds = λ i h. ground (arith, v.worker_holds i);
    units = v.units;
    bounded = v.bounded;
    order = v.order;
  }
  Append-Inv (Append.full over) v = record {
    main_holds = v.main_holds;
    worker_holds = v.worker_holds;
    units = v.units;
    bounded = v.bounded;
    order = v.order;
  }
  Append-Inv {p} (Append.push {r} room) v = record {
    main_holds = v.main_holds;
    worker_holds = v.worker_holds;
    units = omega (arith, v.units, length-append p.queue (r ∷ []));
    bounded = omega (arith, length-append p.queue (r ∷ []));
    order = sym (append_assoc p.taken p.queue (r ∷ [])) ∙ ap (λ l. l ++ r ∷ []) v.order;
  }
  Append-Inv Append.refuse v = record {
    main_holds = λ h. cc;
    worker_holds = λ i h. ground (arith, v.worker_holds i);
    units = v.units;
    bounded = v.bounded;
    order = v.order;
  }
  Append-Inv Append.unlock v = record {
    main_holds = λ h. cc;
    worker_holds = λ i h. ground (arith, v.worker_holds i);
    units = v.units;
    bounded = v.bounded;
    order = v.order;
  }
  Append-Inv Append.post v = record {
    main_holds = λ h. cc;
    worker_holds = v.worker_holds;
    units = omega (arith, v.units);
    bounded = v.bounded;
    order = v.order;
  }

  Run-Inv :
      {p p' : Pool} {m : Producer} {w : ℕ → Worker} {a b : Worker} (i : ℕ)
      → i < n
      → Run (suc i) p a p' b
      → w i ≡ a
      → Inv max_requests n p m w
      → Inv max_requests n p' m (update w i b)
  unfolding update
  Run-Inv {p} {m} {w} i lt (Run.wait {n = k} more) e v = record {
    main_holds = v.main_holds;
    worker_holds = λ j h. ground (arith, v.worker_holds j);
    units = omega (arith, v.units, moved n w i waiting awake lt e);
    bounded = v.bounded;
    order = v.order;
  }
  Run-Inv {p} {m} {w} i lt (Run.lock free) e v = record {
    main_holds = λ h. ground (arith, v.main_holds h);
    worker_holds = λ j h. ground (arith, v.worker_holds j);
    units = omega (arith, v.units, moved n w i awake looking lt e);
    bounded = v.bounded;
    order = v.order;
  }
  Run-Inv {p} {m} {w} i lt (Run.empty none_left) e v =
      absurd (omega (arith, v.units, moved n w i looking leaving lt e, ap length none_left))
  Run-Inv {p} {m} {w} i lt Run.leave e v =
      let own : p.holder ≡ some (suc i) = v.worker_holds i (rw e refl) in
      record {
        main_holds = λ h. ground (arith, v.main_holds h);
        worker_holds = λ j h. ground (arith, v.worker_holds j);
        units = omega (arith, v.units, moved n w i leaving waiting lt e);
        bounded = v.bounded;
        order = v.order;
      }
  Run-Inv {p} {m} {w} i lt (Run.pop {r} {q} split) e v =
      let own : p.holder ≡ some (suc i) = v.worker_holds i (rw e refl) in
      record {
        main_holds = v.main_holds;
        worker_holds = λ j h. ground (arith, v.worker_holds j);
        units = omega (arith, v.units, moved n w i looking (holding r) lt e, ap length split);
        bounded = omega (arith, ap length split);
        order = append_assoc p.taken (r ∷ []) q ∙ ap (◌++◌ p.taken) (sym split) ∙ v.order;
      }
  Run-Inv {p} {m} {w} i lt (Run.unlock {r}) e v =
      let own : p.holder ≡ some (suc i) = v.worker_holds i (rw e refl) in
      record {
        main_holds = λ h. ground (arith, v.main_holds h);
        worker_holds = λ j h. ground (arith, v.worker_holds j);
        units = omega (arith, v.units, moved n w i (holding r) (serving r) lt e);
        bounded = v.bounded;
        order = v.order;
      }
  Run-Inv {p} {m} {w} i lt (Run.drop_null {r} null) e v = record {
    main_holds = v.main_holds;
    worker_holds = λ j h. ground (arith, v.worker_holds j);
    units = omega (arith, v.units, moved n w i (serving r) waiting lt e);
    bounded = v.bounded;
    order = v.order;
  }
  Run-Inv {p} {m} {w} i lt (Run.process {r} real) e v = record {
    main_holds = v.main_holds;
    worker_holds = λ j h. ground (arith, v.worker_holds j);
    units = omega (arith, v.units, moved n w i (serving r) waiting lt e);
    bounded = v.bounded;
    order = v.order;
  }
  Run-Inv {p} {m} {w} i lt (Run.hang {r} real) e v = record {
    main_holds = v.main_holds;
    worker_holds = λ j h. ground (arith, v.worker_holds j);
    units = omega (arith, v.units, moved n w i (serving r) stuck lt e);
    bounded = v.bounded;
    order = v.order;
  }

  Step-Inv :
      {s t : System}
      → Step max_requests n s t
      → Inv max_requests n s.pool s.main s.worker
      → Inv max_requests n t.pool t.main t.worker
  Step-Inv (by_main a) v = Append-Inv a v
  Step-Inv (by_worker i lt r) v = Run-Inv i lt r refl v

  -- In every state that the threads reach, however their steps interleave, whoever is between
  -- `Lock` and `unLock` holds the lock, the queue has at most `max_requests + 1` requests, the
  -- requests accepted are those taken and then those in the queue, in order, and each one in the
  -- queue has a unit of the semaphore, a worker on its way to it, or a `Post` to come.
  pub Reach-Inv : {s : System} → Reach max_requests n s → Inv max_requests n s.pool s.main s.worker
  Reach-Inv begin = record {
    main_holds = λ h. cc;
    worker_holds = λ i h. cc;
    units = omega (arith, sum_to-zero due n waiting refl);
    bounded = omega arith;
    order = refl;
  }
  Reach-Inv (next r st) = Step-Inv st (Reach-Inv r)
