-- ===== src/ThreadPool/Orphans.antt =====
-- Which threads the constructor of `ThreadPool` in webserver/include/threadpool.h starts.
use mathlib.Core.List.{append_assoc, append-nil}
use my_tcp_cs.Base.{
  ℕ, zero, suc, ◌+◌, ◌<◌, ◌≡◌, refl, ◌∙◌, sym, ap, false, none, some, List, [], ◌∷◌, ◌++◌, ◌-◌,
  length, arith,
}
use my_tcp_cs.Base.Int.{pos}
use my_tcp_cs.Locker.{Pthreads, constructed, new_locker, new_sem}
use my_tcp_cs.ThreadPool.Startup.{
  Threads, all_started, gave_up, made, threw, at_most_zero, rounds, start_threads, destroy_members,
  after_loop, make_threads, new_pool,
}

-- `k` threads, one after the other, are created and detached.
pub data StartedThreads {W : Type 0} (th : Threads W) : ℕ → W → W → List ℕ → Type 0 where
  none_yet : {w : W} → StartedThreads th 0 w w []
  one_more :
      {k t : ℕ} {w w' : W} {ts : List ℕ}
      → (th.create w).1 ≡ some t
      → (th.detach (th.create w).0 t).1 ≡ 0
      → StartedThreads th k (th.detach (th.create w).0 t).0 w' ts
      → StartedThreads th (suc k) w w' (t ∷ ts)

module _ {W : Type 0} (th : Threads W) where
  start_threads-next :
      (todo t : ℕ) (w : W) (before : List ℕ)
      → (th.create w).1 ≡ some t
      → (th.detach (th.create w).0 t).1 ≡ 0
      → start_threads th (suc todo) w before
        ≡ start_threads th todo (th.detach (th.create w).0 t).0 (before ++ t ∷ [])
  unfolding start_threads
  start_threads-next todo t w before created detached = rw (start_threads, created, detached) refl

  start_threads-started :
      (k todo : ℕ) (w w' : W) (before ts : List ℕ)
      → StartedThreads th k w w' ts
      → start_threads th (k + todo) w before ≡ start_threads th todo w' (before ++ ts)
  start_threads-started zero todo w w' before ts none_yet =
      ap (λ k. start_threads th k w before) (omega arith)
      ∙ ap (start_threads th todo w) (sym (append-nil before))
  start_threads-started (suc k) todo w w' before ts (one_more {t} {ts = us} created detached rest) =
      ap (λ j. start_threads th j w before) (omega arith)
      ∙ start_threads-next (k + todo) t w before created detached
      ∙ start_threads-started k todo _ w' (before ++ t ∷ []) us rest
      ∙ ap (start_threads th todo w') (append_assoc before (t ∷ []) us)

  start_threads-none_left :
      (w : W) (before : List ℕ) → start_threads th 0 w before ≡ (w, all_started before)
  unfolding start_threads
  start_threads-none_left w before = refl

  length-StartedThreads :
      (k : ℕ) (w w' : W) (ts : List ℕ) → StartedThreads th k w w' ts → length ts ≡ k
  length-StartedThreads zero w w' ts none_yet = refl
  length-StartedThreads (suc k) w w' ts (one_more {t} {ts = us} created detached rest) =
      omega (arith, length-StartedThreads k _ w' us rest)

  start_threads-fails :
      (todo : ℕ) (w : W) (before : List ℕ)
      → (th.create w).1 ≡ none
      → start_threads th (suc todo) w before ≡ ((th.create w).0, gave_up before)
  unfolding start_threads
  start_threads-fails todo w before none_there = rw (start_threads, none_there) refl

module _ {W : Type 0} (os : Pthreads W) (mutex sem : ℕ) (w : W) where
  -- What building the lock and the semaphore leaves.
  abbrev pub members_built : W
  members_built = (new_sem os (new_locker os w mutex).0 sem 0).0

  -- They are built.
  pub record MembersBuilt : Type 0 where
    pub locker : (new_locker os w mutex).1 ≡ constructed
    pub stat : (new_sem os (new_locker os w mutex).0 sem 0).1 ≡ constructed

positive : (n : ℕ) → 0 < n → at_most_zero (pos n) ≡ false
unfolding at_most_zero
positive n some_there = ground arith

module _ {W : Type 0} (os : Pthreads W) (th : Threads W) (mutex sem n m : ℕ) (w : W)
    (b : MembersBuilt os mutex sem w) (some_threads : 0 < n) (some_room : 0 < m) where
  new_pool-members :
      new_pool os th mutex sem w (pos n) (pos m)
      ≡ make_threads os th mutex sem (members_built os mutex sem w) (pos n) (pos m)
  unfolding new_pool
  new_pool-members = rw (new_pool, b.locker, b.stat) refl

  new_pool-after_loop :
      new_pool os th mutex sem w (pos n) (pos m)
      ≡ after_loop os th mutex sem
          (pos n)
          (pos m)
          (start_threads th n (members_built os mutex sem w) [])
  unfolding make_threads rounds
  new_pool-after_loop =
      new_pool-members ∙ rw (make_threads, positive n some_threads, positive m some_room) refl

  -- If the members are built and every `pthread_create` and `pthread_detach` succeeds, the
  -- constructor ends with an object that has the ids of exactly the threads asked for, in order,
  -- and does not stop them.
  pub new_pool-made :
      (w' : W) (ts : List ℕ)
      → StartedThreads th n (members_built os mutex sem w) w' ts
      → new_pool os th mutex sem w (pos n) (pos m) ≡ (
        w',
        made (record {
          thread_number = pos n;
          max_requests = pos m;
          threads = some ts;
          stop = false;
        }),
      )
  unfolding after_loop
  new_pool-made w' ts all =
      new_pool-after_loop
      ∙ ap (after_loop os th mutex sem (pos n) (pos m)) (
          ap (λ k. start_threads th k (members_built os mutex sem w) []) (omega arith)
          ∙ start_threads-started th n 0 (members_built os mutex sem w) w' [] ts all
          ∙ start_threads-none_left th w' ts)

  -- If the members are built and a `pthread_create` fails after `k` threads, the constructor
  -- destroys the semaphore and the lock and throws, while exactly those `k` threads, already
  -- detached, go on running with the pool.
  pub new_pool-orphans :
      (k : ℕ) (w' : W) (ts : List ℕ)
      → StartedThreads th k (members_built os mutex sem w) w' ts
      → k < n
      → (th.create w').1 ≡ none
      → (new_pool os th mutex sem w (pos n) (pos m)
          ≡ (destroy_members os mutex sem (th.create w').0, threw ts))
        × (length ts ≡ k)
  unfolding after_loop
  new_pool-orphans k w' ts first some_left fails = (
    new_pool-after_loop
        ∙ ap (after_loop os th mutex sem (pos n) (pos m)) (
            ap (λ j. start_threads th j (members_built os mutex sem w) []) (omega arith)
            ∙ start_threads-started th k (suc (n - k - 1)) (members_built os mutex sem w) w' [] ts
                first
            ∙ start_threads-fails th (n - k - 1) w' ts fails),
    length-StartedThreads th k (members_built os mutex sem w) w' ts first,
  )
