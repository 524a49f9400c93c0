-- ===== src/Locker.antt =====
-- webserver/include/locker.h: the classes over a mutex, a condition variable and a semaphore.
pub mod Waits
pub mod Balance
use mathlib.Core.Option
use my_tcp_cs.Base.{ℕ, zero, suc, Bool, true, false, not, Option, none, some, ◌==◌, if◌then◌else◌}

-- What a semaphore's call returns: 0, or -1 with `errno`.
pub data SemResult : Type 0 where
  succeeded : SemResult
  failed : (errno : ℕ) → SemResult

-- The calls of pthread.h and semaphore.h on objects at addresses, with what they leave and return:
-- an error number, 0 for success, or the result of a semaphore's call.
pub record Pthreads (W : Type 0) : Type 0 where
  pub mutex_init : W → (mutex : ℕ) → W × ℕ
  pub mutex_destroy : W → (mutex : ℕ) → W
  pub mutex_lock : W → (mutex : ℕ) → W × ℕ
  pub mutex_unlock : W → (mutex : ℕ) → W × ℕ
  pub cond_init : W → (cond : ℕ) → W × ℕ
  pub cond_destroy : W → (cond : ℕ) → W
  pub cond_wait : (cond mutex : ℕ) → W → W × ℕ
  pub cond_timedwait : (cond mutex time : ℕ) → W → W × ℕ
  pub cond_signal : W → (cond : ℕ) → W × ℕ
  pub cond_broadcast : W → (cond : ℕ) → W × ℕ
  pub sem_init : W → (sem value : ℕ) → W × SemResult
  pub sem_destroy : W → (sem : ℕ) → W
  pub sem_wait : (sem : ℕ) → W → W × SemResult
  pub sem_post : W → (sem : ℕ) → W × SemResult

abbrev pub eintr : ℕ
eintr = 4

-- How a constructor ends: `thrown` is a `std::exception`.
pub data Ctor : Type 0 where
  constructed : Ctor
  thrown : Ctor

unfoldable pub interrupted : (ret : ℕ) → Bool
interrupted ret = ret == eintr

unfoldable pub sem_interrupted : SemResult → Bool
sem_interrupted succeeded = false
sem_interrupted (failed errno) = errno == eintr

unfoldable pub sem_succeeds : SemResult → Bool
sem_succeeds succeeded = true
sem_succeeds (failed errno) = false

-- `while (again(ret = call())) continue;`, and what the last call leaves and returns: `none` if the
-- fuel ran out.
unfoldable pub retry {ℓ} :
    {W : Type 0} {R : Type ℓ} → (R → Bool) → (call : W → W × R) → ℕ → W → Option (W × R)
retry again call zero w = none
retry again call (suc fuel) w = elim (again (call w).1) [
  | true ↦ retry again call fuel (call w).0
  | false ↦ some (call w)
]

module _ {W : Type 0} (os : Pthreads W) where
  -- `Locker()`
  unfoldable pub new_locker : W → (mutex : ℕ) → W × Ctor
  new_locker w mutex =
      let (w', ret) = os.mutex_init w mutex in
      if not (ret == 0) then (w', thrown) else (w', constructed)

  -- `~Locker()`
  unfoldable pub delete_locker : W → (mutex : ℕ) → W
  delete_locker w mutex = os.mutex_destroy w mutex

  -- `Lock()`
  unfoldable pub lock : W → (mutex : ℕ) → W × Bool
  lock w mutex = let (w', ret) = os.mutex_lock w mutex in (w', ret == 0)

  -- `unLock()`, which returns the call's result as a `bool`.
  unfoldable pub unlock : W → (mutex : ℕ) → W × Bool
  unlock w mutex = let (w', ret) = os.mutex_unlock w mutex in (w', not (ret == 0))

  -- `Cond()`
  unfoldable pub new_cond : W → (cond : ℕ) → W × Ctor
  new_cond w cond =
      let (w', ret) = os.cond_init w cond in
      if not (ret == 0) then (w', thrown) else (w', constructed)

  -- `~Cond()`
  unfoldable pub delete_cond : W → (cond : ℕ) → W
  delete_cond w cond = os.cond_destroy w cond

  -- `Cond::Wait(mutex)`
  unfoldable pub wait_cond : ℕ → W → (cond mutex : ℕ) → Option (W × Bool)
  unfolding retry interrupted
  wait_cond fuel w cond mutex =
      Option.map (λ r. (r.0, r.1 == 0)) (retry interrupted (os.cond_wait cond mutex) fuel w)

  -- `Cond::TimedWait(mutex, time)`
  unfoldable pub timed_wait : ℕ → W → (cond mutex time : ℕ) → Option (W × Bool)
  unfolding retry interrupted
  timed_wait fuel w cond mutex time =
      Option.map (λ r. (r.0, r.1 == 0))
        (retry interrupted (os.cond_timedwait cond mutex time) fuel w)

  -- `Cond::Signal()`
  unfoldable pub signal : W → (cond : ℕ) → W × Bool
  signal w cond = let (w', ret) = os.cond_signal w cond in (w', ret == 0)

  -- `Cond::BroadCast()`
  unfoldable pub broadcast : W → (cond : ℕ) → W × Bool
  broadcast w cond = let (w', ret) = os.cond_broadcast w cond in (w', ret == 0)

  -- `Sem(num)`; `Sem()` is `Sem(0)`.
  unfoldable pub new_sem : W → (sem num : ℕ) → W × Ctor
  unfolding sem_succeeds
  new_sem w sem num =
      let (w', ret) = os.sem_init w sem num in
      if sem_succeeds ret then (w', constructed) else (w', thrown)

  -- `~Sem()`
  unfoldable pub delete_sem : W → (sem : ℕ) → W
  delete_sem w sem = os.sem_destroy w sem

  -- `Sem::Wait()`
  unfoldable pub wait_sem : ℕ → W → (sem : ℕ) → Option (W × Bool)
  unfolding retry sem_interrupted sem_succeeds
  wait_sem fuel w sem =
      Option.map (λ r. (r.0, sem_succeeds r.1)) (retry sem_interrupted (os.sem_wait sem) fuel w)

  -- `Sem::Post()`
  unfoldable pub post_sem : W → (sem : ℕ) → W × Bool
  unfolding sem_succeeds
  post_sem w sem = let (w', ret) = os.sem_post w sem in (w', sem_succeeds ret)
