-- ===== src/ThreadPool/Startup.antt =====
-- The constructor and the destructor of `ThreadPool` in webserver/include/threadpool.h; `new` finds
-- memory for the array.
use my_tcp_cs.Base.{
  ℕ, zero, suc, Bool, true, false, ◌||◌, Option, none, some, List, [], ◌∷◌, ◌++◌, ◌==◌,
  if◌then◌else◌,
}
use my_tcp_cs.Base.Int.{ℤ, pos, negsuc}
use my_tcp_cs.Locker.{Pthreads, constructed, thrown, new_locker, delete_locker, new_sem, delete_sem}

-- `pthread_create` with `Worker` and `this`, which gives the new thread's id, and `pthread_detach`,
-- which returns an error number.
pub record Threads (W : Type 0) : Type 0 where
  pub create : W → W × Option ℕ
  pub detach : W → (thread : ℕ) → W × ℕ

-- A `ThreadPool` object: its lock and its semaphore are at addresses; `threads` is the array, none
-- once it is deleted.
pub record PoolObject : Type 0 where
  pub thread_number : ℤ
  pub max_requests : ℤ
  pub threads : Option (List ℕ)
  pub stop : Bool

-- How the loop over the threads ends: with all of them, or with an error after some.
pub data Loop : Type 0 where
  all_started : (threads : List ℕ) → Loop
  gave_up : (threads : List ℕ) → Loop

-- How the constructor ends: with the object, or with an exception, where `running` are the threads
-- that it has started with `this`.
pub data Made : Type 0 where
  made : PoolObject → Made
  threw : (running : List ℕ) → Made

unfoldable pub at_most_zero : ℤ → Bool
at_most_zero (pos n) = n == 0
at_most_zero (negsuc n) = true

-- The number of rounds of `for (int i = 0; i < m_thread_number_; ++i)`.
unfoldable pub rounds : ℤ → ℕ
rounds (pos n) = n
rounds (negsuc n) = 0

module _ {W : Type 0} (th : Threads W) where
  -- The loop that creates and detaches the threads.
  unfoldable pub start_threads : (todo : ℕ) → W → (threads : List ℕ) → W × Loop
  start_threads zero w threads = (w, all_started threads)
  start_threads (suc todo) w threads =
      let (w₁, created) = th.create w in
      elim created [
        | none ↦ (w₁, gave_up threads)
        | some t ↦
            let (w₂, ret) = th.detach w₁ t in
            elim (ret == 0) [
              | true ↦ start_threads todo w₂ (threads ++ t ∷ [])
              | false ↦ (w₂, gave_up (threads ++ t ∷ []))
            ]
      ]

module _ {W : Type 0} (os : Pthreads W) (mutex sem : ℕ) where
  -- The members' destructors, in the reverse of the order of their declaration.
  unfoldable pub destroy_members : W → W
  unfolding delete_sem delete_locker
  destroy_members w = delete_locker os (delete_sem os w sem) mutex

module _ {W : Type 0} (os : Pthreads W) (th : Threads W) (mutex sem : ℕ) where
  -- How the constructor goes on from its loop.
  unfoldable pub after_loop : (thread_number max_requests : ℤ) → W × Loop → W × Made
  unfolding destroy_members
  after_loop thread_number max_requests (w, all_started threads) = (
    w,
    made (record {
      thread_number = thread_number;
      max_requests = max_requests;
      threads = some threads;
      stop = false;
    }),
  )
  after_loop thread_number max_requests (w, gave_up threads) =
      (destroy_members os mutex sem w, threw threads)

  -- The body of the constructor, with what an exception out of it destroys.
  unfoldable pub make_threads : W → (thread_number max_requests : ℤ) → W × Made
  unfolding at_most_zero rounds start_threads destroy_members after_loop
  make_threads w thread_number max_requests =
      if at_most_zero thread_number || at_most_zero max_requests
      then (destroy_members os mutex sem w, threw [])
      else after_loop thread_number max_requests (start_threads th (rounds thread_number) w [])

  -- `ThreadPool(thread_number, max_requests)`, whose lock and semaphore are built first.
  unfoldable pub new_pool : W → (thread_number max_requests : ℤ) → W × Made
  unfolding new_locker new_sem delete_locker make_threads
  new_pool w thread_number max_requests =
      let (w₁, locker) = new_locker os w mutex in
      elim locker [
        | thrown ↦ (w₁, threw [])
        | constructed ↦
            let (w₂, stat) = new_sem os w₁ sem 0 in
            elim stat [
              | thrown ↦ (delete_locker os w₂ mutex, threw [])
              | constructed ↦ make_threads w₂ thread_number max_requests
            ]
      ]

  -- `~ThreadPool()`, with the destructors of its members.
  unfoldable pub delete_pool : W → PoolObject → W × PoolObject
  unfolding destroy_members
  delete_pool w p = (destroy_members os mutex sem w, record p { threads = none; stop = true })
