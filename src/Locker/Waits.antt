-- ===== src/Locker/Waits.antt =====
-- The loops of `Wait` and `TimedWait` in webserver/include/locker.h, which call again after a
-- signal.
use mathlib.Core.Option
use my_tcp_cs.Base.{
  ℕ, zero, suc, ◌<◌, ◌≡◌, refl, inl, inr, Bool-cases, Bool, true, false, ◌==◌, Option, none, some,
  arith,
}
use my_tcp_cs.Locker.{
  Pthreads, interrupted, sem_interrupted, sem_succeeds, retry, wait_cond, timed_wait, wait_sem,
}

-- `k` calls, each interrupted, lead from one state to another.
pub data Interrupted {W R : Type 0} (again : R → Bool) (call : W → W × R) : ℕ → W → W → Type 0 where
  at_once : {w : W} → Interrupted again call 0 w w
  once_more :
      {k : ℕ} {w w' : W}
      → again (call w).1 ≡ true
      → Interrupted again call k (call w).0 w'
      → Interrupted again call (suc k) w w'

-- What a loop returns: the result of the first call that is not interrupted, or nothing where all
-- the calls that the fuel allows are.
pub data Waited {W R : Type 0} (again ok : R → Bool) (call : W → W × R) (fuel : ℕ) (w : W)
    : Option (W × Bool) → Type 0 where
  returned :
      {k : ℕ} {w' : W}
      → k < fuel
      → Interrupted again call k w w'
      → again (call w').1 ≡ false
      → Waited again ok call fuel w (some ((call w').0, ok (call w').1))
  held_up : {w' : W} → Interrupted again call fuel w w' → Waited again ok call fuel w none

module _ {W R : Type 0} (again ok : R → Bool) (call : W → W × R) where
  Waited-again :
      (fuel : ℕ) (w : W) (o : Option (W × Bool))
      → again (call w).1 ≡ true
      → Waited again ok call fuel (call w).0 o
      → Waited again ok call (suc fuel) w o
  Waited-again fuel w o e (returned lt i last) = returned (omega (arith, lt)) (once_more e i) last
  Waited-again fuel w o e (held_up i) = held_up (once_more e i)

  retry_again :
      (fuel : ℕ) (w : W)
      → again (call w).1 ≡ true
      → retry again call (suc fuel) w ≡ retry again call fuel (call w).0
  unfolding retry
  retry_again fuel w e = rw (retry, e) refl

  retry_last :
      (fuel : ℕ) (w : W) → again (call w).1 ≡ false → retry again call (suc fuel) w ≡ some (call w)
  unfolding retry
  retry_last fuel w e = rw (retry, e) refl

  pub retry-Waited :
      (fuel : ℕ) (w : W)
      → Waited again ok call fuel w (Option.map (λ r. (r.0, ok r.1)) (retry again call fuel w))
  unfolding retry
  retry-Waited zero w = held_up at_once
  retry-Waited (suc fuel) w = elim (Bool-cases (again (call w).1)) [
    | inl e ↦ rw (retry_again fuel w e) (Waited-again fuel w _ e (retry-Waited fuel (call w).0))
    | inr e ↦ rw (retry_last fuel w e) (returned (omega arith) at_once e)
  ]

module _ {W : Type 0} (os : Pthreads W) where
  pub wait_sem-Waited :
      (fuel : ℕ) (w : W) (sem : ℕ)
      → Waited sem_interrupted sem_succeeds (os.sem_wait sem) fuel w (wait_sem os fuel w sem)
  unfolding wait_sem
  wait_sem-Waited fuel w sem = retry-Waited sem_interrupted sem_succeeds (os.sem_wait sem) fuel w

  -- `Cond::Wait`, `Cond::TimedWait` and `Sem::Wait` return after the first call that no signal
  -- interrupts, however many were interrupted before, and return whether that call succeeded; they
  -- go on for ever only if every call is interrupted.
  pub waits-Waited :
      (fuel : ℕ) (w : W) (cond mutex time sem : ℕ)
      → Waited interrupted
          (λ ret. ret == 0)
          (os.cond_wait cond mutex)
          fuel
          w
          (wait_cond os fuel w cond mutex)
        × Waited interrupted
            (λ ret. ret == 0)
            (os.cond_timedwait cond mutex time)
            fuel
            w
            (timed_wait os fuel w cond mutex time)
        × Waited sem_interrupted sem_succeeds (os.sem_wait sem) fuel w (wait_sem os fuel w sem)
  unfolding wait_cond timed_wait
  waits-Waited fuel w cond mutex time sem = (
    retry-Waited interrupted (λ ret. ret == 0) (os.cond_wait cond mutex) fuel w,
    retry-Waited interrupted (λ ret. ret == 0) (os.cond_timedwait cond mutex time) fuel w,
    wait_sem-Waited fuel w sem,
  )
